-- ===== src/Codepin/Records.antt =====
-- `load_failed` of codepin.py, and the report that `main` prints. Reading a file is a parameter.
use bay.Prelude.{
  String, Bool, true, false, not, ◌&&◌, ◌||◌, Option, none, some, List, [], ◌∷◌, map, ◌==◌,
  string_eq, option_eq, if◌then◌else◌, ℕ,
}
use bay.Prelude.Assoc.{any, keep}
use bay.Prelude.Text.{concat, join, words, lines, has_char, is_empty}
use bay.Images.{is_commit, short}
use bay.Codepin.{Failed, Move, Status, retag, missing}

-- `parts` of a line: the commit is the first word, where it is one
abbrev pub with_commit : List String → List String → List String
with_commit [] commits = commits
with_commit (word ∷ rest) commits = if is_commit word then short word ∷ commits else commits

-- the second word names an image, unless it is a dash
abbrev pub with_image : List String → List String → List String
with_image (first ∷ second ∷ rest) images = if second == "-" then images else second ∷ images
with_image _ images = images

unfoldable pub add_lines : List String → Failed
unfolding words
add_lines [] = record { commits = []; images = [] }
add_lines (line ∷ l) =
    let rest = add_lines l in
    record {
      commits = with_commit (words line) rest.commits;
      images = with_image (words line) rest.images;
    }

abbrev starts_dot : String → Bool
starts_dot String.[] = false
starts_dot (String.◌∷◌ c s) = String.◌∷◌ c "" == "."

abbrev pub no_directory : Option String → Bool
no_directory none = true
no_directory (some directory) = is_empty directory

-- `f"{directory}/{name}"`
abbrev pub record_path : Option String → String → String
record_path none name = concat ("None/" ∷ name ∷ [])
record_path (some directory) name = concat (directory ∷ "/" ∷ name ∷ [])

abbrev pub of_file : Option String → Failed
of_file none = record { commits = []; images = [] }
of_file (some content) = add_lines (lines content)

module _ (read : String → Option String) where
  unfoldable pub load_failed : Option String → String → Failed
  unfolding add_lines lines concat has_char
  load_failed directory name =
      if no_directory directory || is_empty name || has_char "/" name || starts_dot name
      then record { commits = []; images = [] }
      else of_file (read (record_path directory name))

-- the moves that make `main` fail
abbrev pub is_refused : Move → Bool
is_refused m = is_missing m.status && m.strict
  where
    is_missing : Status → Bool
    is_missing missing = true
    is_missing _ = false

abbrev is_retag : Move → Bool
is_retag m = of_status m.status
  where
    of_status : Status → Bool
    of_status retag = true
    of_status _ = false

abbrev tags_text : List String → String
tags_text [] = "none"
tags_text (t ∷ l) = join ", " (t ∷ l)

abbrev move_error : Move → String
move_error m =
    concat (m.name ∷ ": " ∷ m.detail ∷ "; commit tags on this box: " ∷ tags_text m.available ∷ [])

-- `"…" or None`
abbrev text_or_none : String → Option String
text_or_none s = if is_empty s then none else some s

-- What `main` prints.
pub record Report : Type 0 where
  pub ok : Bool
  pub changed : Bool
  pub moves : List Move
  pub build_lock : String
  pub error : Option String

unfoldable pub report_of : List Move → String → Report
unfolding any keep join concat
report_of moves lock_state = record {
  ok = not (any is_refused moves);
  changed = any is_retag moves;
  moves = moves;
  build_lock = lock_state;
  error = text_or_none (join "; " (map move_error (keep is_refused moves)));
}

-- what `main` returns behind the report
unfoldable pub exit_code : List Move → ℕ
unfolding any
exit_code moves = if any is_refused moves then 1 else 0
