-- ===== src/Profile/Files.antt =====
-- internal/profile/store.go: previews and updates of a file of the workspace. The model keeps the
-- files of the workspace's directory under their names; a name that a configuration allows and that
-- is not a file's, `.` or `..`, is left out. The answers of the file system are an argument.
use nisix.Common.{ℕ, Bool, true, Option, none, some, [], ◌++◌, if◌then◌else◌, length}
use nisix.Common.Text.{Text, codes, eq_text}
use nisix.Common.Dict
use nisix.Common.Dict.{Dict}
use nisix.Profile.{
  UpdateRequest, UpdateResult, Answer, done, failed, internal, update_mode_append,
  update_mode_patch,
}
use nisix.Profile.Validator.{base}
use nisix.Profile.Patch.{append_text, patch_text}

pub record StoredFile : Type 0 where
  pub content : Text
  pub modified : ℕ

abbrev pub Files : Type 0
Files = Dict StoredFile

-- What the calls of the file system answer: whether they succeed, and what a failed write leaves in
-- its file, if it changes it.
pub record FileIo : Type 0 where
  pub can_read : Bool
  pub can_make : Bool
  pub can_write : Bool
  pub torn : Option Text
  pub can_rename : Bool
  pub can_stat : Bool
  pub now : ℕ

abbrev pub content_of : Option StoredFile → Text
content_of none = []
content_of (some f) = f.content

-- os.ReadFile, its error ignored
unfoldable pub current_content : FileIo → Files → Text → Text
current_content io files path = if io.can_read then content_of (Dict.get files path) else []

unfoldable pub preview_update : FileIo → Files → Text → UpdateRequest → Answer Text
unfolding current_content append_text patch_text eq_text base
preview_update io files path req =
    let current = current_content io files path in
    if eq_text req.mode update_mode_append
    then done (append_text current req.content)
    else if eq_text req.mode update_mode_patch
    then patch_text (base path) current req.content
    else done req.content

abbrev pub leave_torn : FileIo → Files → Text → Option Text → Files
leave_torn io files tmp none = files
leave_torn io files tmp (some b) = Dict.put files tmp (record { content = b; modified = io.now })

abbrev pub tmp_of : Text → Text
tmp_of path = path ++ codes ".tmp"

-- os.WriteFile to the temporary file, os.Rename and os.Stat
abbrev replace_file : FileIo → Files → Text → Text → Files × Answer UpdateResult
replace_file io files path next =
    if io.can_write
    then if io.can_rename
      then (
        Dict.put (Dict.remove files (tmp_of path)) path
            (record { content = next; modified = io.now }),
        if io.can_stat
            then done
                (record { ok = true; file = base path; updated_at = io.now; bytes = length next })
            else failed internal,
      )
      else (
        Dict.put files (tmp_of path) (record { content = next; modified = io.now }),
        failed internal,
      )
    else (leave_torn io files (tmp_of path) io.torn, failed internal)

abbrev pub write_next : FileIo → Files → Text → Answer Text → Files × Answer UpdateResult
write_next io files path (failed e) = (files, failed e)
write_next io files path (done next) = replace_file io files path next

unfoldable pub apply_update : FileIo → Files → Text → UpdateRequest → Files × Answer UpdateResult
apply_update io files path req = write_next io files path (preview_update io files path req)
