-- ===== src/Mcp/Transport.antt =====
-- internal/mcp/client.go: resolveTransport.
use nisix.Common.{not, Option, none, some, if◌then◌else◌, is_nil}
use nisix.Common.Text.{Text, codes, eq_text, trim_space, to_lower, contains}

-- The fields of ServerConfig that name the transport.
pub record ServerConfig : Type 0 where
  pub transport : Text
  pub kind : Text
  pub command : Text
  pub url : Text
  pub message_url : Text

abbrev transport_of_command : ServerConfig → Option Text
transport_of_command cfg =
    if not (is_nil (trim_space cfg.command))
    then some (codes "stdio")
    else if is_nil (trim_space cfg.url)
    then none
    else if not (is_nil (trim_space cfg.message_url))
    then some (codes "sse")
    else if contains (to_lower cfg.url) (codes "/sse")
    then some (codes "sse")
    else some (codes "streamable_http")

abbrev known_transport : Text → Option Text
known_transport t =
    if eq_text t (codes "stdio")
    then some (codes "stdio")
    else if eq_text t (codes "sse")
    then some (codes "sse")
    else if eq_text t (codes "streamable_http")
    then some (codes "streamable_http")
    else if eq_text t (codes "streamable-http")
    then some (codes "streamable_http")
    else if eq_text t (codes "http")
    then some (codes "streamable_http")
    else none

abbrev transport_named : ServerConfig → Text → Option Text
transport_named cfg t = if is_nil t then transport_of_command cfg else known_transport t

abbrev or_kind : ServerConfig → Text → Text
or_kind cfg t = if is_nil t then to_lower (trim_space cfg.kind) else t

-- resolveTransport; none is an error.
unfoldable pub resolve_transport : ServerConfig → Option Text
resolve_transport cfg = transport_named cfg (or_kind cfg (to_lower (trim_space cfg.transport)))
