-- ===== src/Gateway/Accounts.antt =====
-- The hub looks for a reply's sender under the keys of the route.
use nisix.Common.Text.{Text}
