-- ===== src/Runtime/Commands.antt =====
-- internal/agentruntime/runtime.go: handleCommand, the messages that are commands.
use nisix.Common.{
  Bool, true, false, ◌||◌, not, Option, none, some, List, [], ◌∷◌, ◌++◌, if◌then◌else◌, is_nil,
}
use nisix.Common.Text.{Text, codes, eq_text, trim_space, to_lower, join}
use nisix.Common.Decimal.{itoa}
use nisix.Profile.{
  Command, GetResult, UpdateRequest, UpdateResult, Proposal, ProfileError, forbidden_file,
  file_too_large, internal, proposal_invalid, Answer, done, failed, update_mode_replace,
  update_mode_append, profile_list, profile_show, profile_diff, profile_set, profile_append,
  profile_apply, onboard_status, onboard_done,
}
use nisix.Profile.Commands.{parse_command}
use nisix.Profile.Diff.{render_line_diff}
use nisix.Profile.Files.{Files}
use nisix.Profile.Service.{
  Service, get, preview, update, latest_proposal, allowed_names, apply_proposal,
}
use nisix.Runtime.Services.{
  OnboardStatus, Outcome, good, bad, BootstrapService, Runtime, State, Outside,
}
use nisix.Runtime.Listings.{list_skills, list_tools, mcp_status, mcp_tools}

unfoldable pub format_profile_command_error : ProfileError → Text
format_profile_command_error forbidden_file =
    codes "file is not allowed. Use /profile list to see writable files."
format_profile_command_error file_too_large = codes "content is too large for this file."
format_profile_command_error proposal_invalid = codes "proposal is invalid or expired."
format_profile_command_error internal = codes "internal error while processing profile update."

-- %v of a Boolean
abbrev shown : Bool → Text
shown true = codes "true"
shown false = codes "false"

abbrev list_reply : List Text → Text
list_reply [] = codes "no profile files are writable"
list_reply (f ∷ files) = codes "allowed profile files: " ++ join (codes ", ") (f ∷ files)

abbrev show_reply : Answer GetResult → Text
show_reply (failed e) = codes "profile show failed: " ++ format_profile_command_error e
show_reply (done res) =
    if is_nil (trim_space res.content)
    then res.file ++ codes " is empty"
    else codes "## " ++ res.file ++ codes "\n" ++ trim_space res.content

abbrev diff_failed : ProfileError → Text
diff_failed e = codes "profile diff failed: " ++ format_profile_command_error e

abbrev diff_reply : Answer GetResult → Answer Text → Text
diff_reply (failed e) proposed = diff_failed e
diff_reply (done current) (failed e) = diff_failed e
diff_reply (done current) (done proposed) =
    codes "## Diff " ++ current.file ++ codes "\n" ++ render_line_diff current.content proposed

abbrev diff_of : Outside → Service → Files → Text → Text → Text → Text
diff_of o s files file candidate mode = diff_reply (get o.io s files file) (
    preview o.io s files (record {
      file = file;
      content = candidate;
      mode = mode;
      reason = codes "chat_command_diff";
    }))

-- The content of the newest proposal for the file takes the place of a missing one.
abbrev diff_proposed : Outside → Service → Files → Text → Option Proposal → Text
diff_proposed o s files file none =
    codes "profile diff requires content or an active proposal for this file"
diff_proposed o s files file (some p) = diff_of o s files file p.request.content p.request.mode

abbrev diff_command : Outside → Service → Files → Text → Command → Service × Text
diff_command o s files session_key cmd =
    if is_nil (trim_space cmd.content)
    then (let (s', p) = latest_proposal o.now s session_key cmd.file in
        (s', diff_proposed o s' files cmd.file p))
    else (s, diff_of o s files cmd.file (trim_space cmd.content) update_mode_replace)

abbrev written_reply : Text → Text → Answer UpdateResult → Text
written_reply verb what (failed e) =
    codes "profile " ++ what ++ codes " failed: " ++ format_profile_command_error e
written_reply verb what (done res) =
    verb ++ res.file ++ codes " (" ++ itoa res.bytes ++ codes " bytes)"

-- The service, the files and the reply after a command on the profile.
abbrev Replied : Type 0
Replied = Service × (Files × Text)

abbrev write_command : Outside → Service → Files → Text → Text → Text → Text → Text → Text → Replied
write_command o s files verb what mode reason file content =
    let req : UpdateRequest = record {
      file = file;
      content = content;
      mode = mode;
      reason = reason;
    } in
    let (files', answer) = update o.io s files req in (s, (files', written_reply verb what answer))

abbrev profile_command : Outside → Service → Files → Text → Command → Replied
profile_command o s files session_key cmd = elim cmd.kind [
  | profile_list ↦ (s, (files, list_reply (allowed_names s)))
  | profile_show ↦ (s, (files, show_reply (get o.io s files cmd.file)))
  | profile_diff ↦ (let (s', text) = diff_command o s files session_key cmd in (s', (files, text)))
  | profile_set ↦
      if is_nil (trim_space cmd.content)
      then (s, (files, codes "profile set requires content"))
      else write_command o s files (codes "updated ") (codes "set") update_mode_replace
          (codes "chat_command_set") cmd.file cmd.content
  | profile_append ↦
      if is_nil (trim_space cmd.content)
      then (s, (files, codes "profile append requires content"))
      else write_command o s files (codes "appended ") (codes "append") update_mode_append
          (codes "chat_command_append") cmd.file cmd.content
  | profile_apply ↦
      (let (s', (files', answer)) = apply_proposal o.io s files session_key cmd.id in
        (s', (files', written_reply (codes "proposal applied to ") (codes "apply") answer)))
  | onboard_status ↦ (s, (files, []))
  | onboard_done ↦ (s, (files, []))
]

abbrev status_reply : Outcome OnboardStatus → Text
status_reply (bad e) = codes "onboard status failed: " ++ e
status_reply (good st) =
    codes "seeded="
    ++ shown st.seeded
    ++ codes " onboardingCompleted="
    ++ shown st.onboarding_completed
    ++ codes " bootstrapExists="
    ++ shown st.bootstrap_exists

abbrev done_reply : Outcome OnboardStatus → Text
done_reply (bad e) = codes "onboard done failed: " ++ e
done_reply (good st) =
    codes "onboarding completed="
    ++ shown st.onboarding_completed
    ++ codes " bootstrapRemoved="
    ++ shown (not st.bootstrap_exists)

abbrev with_bootstrap : (BootstrapService → Text) → Option BootstrapService → Text
with_bootstrap reply none = codes "bootstrap service unavailable"
with_bootstrap reply (some b) = reply b

abbrev with_profile : Outside → State → Text → Command → Option Service → State × Text
with_profile o st session_key cmd none = (st, codes "profile service unavailable")
with_profile o st session_key cmd (some s) =
    let (s', (files, text)) = profile_command o s st.files session_key cmd in
    (record st { profile = some s'; files = files }, text)

abbrev parsed_command : Runtime → Outside → State → Text → Command → State × Text
parsed_command r o st session_key cmd = elim cmd.kind [
  | onboard_status ↦ (st, with_bootstrap (λ b. status_reply b.status) r.bootstrap)
  | onboard_done ↦ (st, with_bootstrap (λ b. done_reply b.complete) r.bootstrap)
  | _ ↦ with_profile o st session_key cmd st.profile
]

abbrev handled : State × Text → State × Option Text
handled (st, text) = (st, some text)

abbrev profile_or_not : Runtime → Outside → State → Text → Option Command → State × Option Text
profile_or_not r o st session_key none = (st, none)
profile_or_not r o st session_key (some cmd) = handled (parsed_command r o st session_key cmd)

abbrev is_one_of : Text → Text → Text → Bool
is_one_of v a b = eq_text v a || eq_text v b

-- The reply to a command, or none for another message, with the state that it leaves.
unfoldable pub handle_command : Runtime → Outside → State → Text → Text → State × Option Text
handle_command r o st session_key text =
    let v = to_lower (trim_space text) in
    if is_one_of v (codes "/skills list") (codes "/skill list")
    then (let (skills, reply) = list_skills r.workspace_dir o st.skills in
        (record st { skills = skills }, some reply))
    else if is_one_of v (codes "/tools list") (codes "/tool list")
    then (st, some (list_tools r.policy r.tools))
    else if eq_text v (codes "/mcp status")
    then (st, some (mcp_status r.mcp))
    else if eq_text v (codes "/mcp tools")
    then (st, some (mcp_tools r.mcp))
    else profile_or_not r o st session_key (parse_command text)
