-- ===== src/Log.antt =====
-- src/middleware/storage/log_manager.{h,cpp}: `LogManager` over an interface of the file system. `ts` is the text
-- of `now_iso`, and `size` gives the bytes of a text.
pub mod Files
pub mod Rotate
pub mod Escape
pub mod Entry
pub mod Write
pub mod Recent
pub mod Export
use Prim.Native.Char.{Char, code}
use iot_dev_sys.Common.{
  ℕ, zero, suc, ◌+◌, ◌*◌, String, Bool, true, false, not, ◌&&◌, List, [], ◌∷◌, ◌++◌, Option, none,
  some, ltb, leb, nat_eq, is_empty, is_some, if◌then◌else◌,
}
use iot_dev_sys.Common.Int.{ℤ, pos, negsuc, neg, pos_part, ltb_ℤ, ◌-ℤ◌}
use iot_dev_sys.Common.Text.{append, concat}
use iot_dev_sys.Json.{until, after}
use iot_dev_sys.Json.Numbers.{to_string}
use iot_dev_sys.Api.Parse.{lines, take}
use iot_dev_sys.Status.{StatusCode, ok, error}

-- What the code uses of `std::filesystem` and of the file streams. `open_file` opens for appending.
pub record FileSystem : Type 1 where
  pub State : Type 0
  pub read : State → String → Option String
  pub has_directory : State → String → Bool
  pub create_directories : State → String → Bool × State
  pub open_file : State → String → Bool × State
  pub write_end : State → String → String → State
  pub rename : State → String → String → State
  pub remove : State → String → State

pub data Level : Type 0 where
  debug info warn error_level : Level

abbrev pub rank : Level → ℕ
rank debug = 0
rank info = 1
rank warn = 2
rank error_level = 3

abbrev pub level_str : Level → String
level_str debug = "DEBUG"
level_str info = "INFO"
level_str warn = "WARN"
level_str error_level = "ERROR"

abbrev pub escape_char : Char → String
escape_char c =
    if nat_eq (code c) b'"'
    then "\\\""
    else if nat_eq (code c) b'\\'
    then "\\\\"
    else if nat_eq (code c) 10
    then "\\n"
    else if nat_eq (code c) 13
    then "\\r"
    else if nat_eq (code c) 9
    then "\\t"
    else String.◌∷◌ c ""

unfoldable pub json_escape : String → String
unfolding append
json_escape String.[] = ""
json_escape (String.◌∷◌ c s) = append (escape_char c) (json_escape s)

-- The fields of `Impl`; of the stream, whether it is open.
pub record LogManager : Type 0 where
  pub log_dir : String
  pub min_level : Level
  pub max_file_size_mb : ℤ
  pub max_files : ℤ
  pub trace_id : String
  pub current_file_path : String
  pub is_open : Bool

unfoldable pub new_log_manager : LogManager
new_log_manager = record {
  log_dir = "";
  min_level = info;
  max_file_size_mb = pos 50;
  max_files = pos 10;
  trace_id = "";
  current_file_path = "";
  is_open = false;
}

unfoldable pub set_level : Level → LogManager → LogManager
set_level level m = record m { min_level = level }

abbrev pub base_path : String → String
base_path log_dir = append log_dir "/dev-sys-cloud.log"

-- `base + "." + std::to_string(i)`
unfoldable pub rotated : String → ℕ → String
unfolding append to_string
rotated base i = append base (append "." (to_string (pos i)))

unfoldable pub trace_part : String → String
unfolding concat json_escape
trace_part trace_id =
    if is_empty trace_id then "" else concat (",\"trace_id\":\"" ∷ json_escape trace_id ∷ "\"" ∷ [])

abbrev pub line_pieces : LogManager → String → Level → String → String → List String
line_pieces m ts level name msg =
    "{\"ts\":\""
    ∷ ts
    ∷ "\",\"level\":\""
    ∷ level_str level
    ∷ "\",\"module\":\""
    ∷ json_escape name
    ∷ "\",\"msg\":\""
    ∷ json_escape msg
    ∷ "\""
    ∷ trace_part m.trace_id
    ∷ "}"
    ∷ []

-- A line without its newline.
unfoldable pub log_line : LogManager → String → Level → String → String → String
unfolding concat
log_line m ts level name msg = concat (line_pieces m ts level name msg)

-- `static_cast<int64_t>(pos) >= max_file_size_mb * 1024 * 1024`, and `pos > 0`.
abbrev pub reaches : ℕ → ℤ → Bool
reaches n (pos mb) = ltb 0 n && leb (mb * 1048576) n
reaches n (negsuc mb) = ltb 0 n

abbrev pub or_none : Option String → String
or_none none = ""
or_none (some t) = t

module _ (F : FileSystem) where
  -- One round of the loop of `rotate`.
  unfoldable pub shift_one : String → ℤ → ℕ → F.State → F.State
  unfolding rotated
  shift_one base max i s =
      if is_some (F.read s (rotated base i))
      then if leb (pos_part max) (suc i)
        then F.remove s (rotated base i)
        else F.rename s (rotated base i) (rotated base (suc i))
      else s

  -- The rounds for `i = n - 1` down to 0.
  unfoldable pub shift : String → ℤ → ℕ → F.State → F.State
  unfolding shift_one
  shift base max zero s = s
  shift base max (suc i) s = shift base max i (shift_one base max i s)

  unfoldable pub to_first : String → F.State → F.State
  unfolding rotated
  to_first base s = if is_some (F.read s base) then F.rename s base (rotated base 0) else s

  unfoldable pub rotate_files : String → ℤ → F.State → F.State
  unfolding shift to_first
  rotate_files base max s = to_first base (shift base max (pos_part max) s)

  unfoldable pub rotate : LogManager → F.State → LogManager × F.State × StatusCode
  unfolding rotate_files
  rotate m s = (record m { is_open = false }, rotate_files (base_path m.log_dir) m.max_files s, ok)

  -- After `rotate`: open the new file and write the line into it.
  abbrev pub rewrite : LogManager → String → Bool × F.State → LogManager × F.State
  rewrite m text (false, s) = (record m { is_open = false }, s)
  rewrite m text (true, s) = (record m { is_open = true }, F.write_end s m.current_file_path text)

  abbrev pub rotate_and_rewrite : LogManager → String → F.State → LogManager × F.State
  rotate_and_rewrite m text s =
      rewrite m text
        (F.open_file (rotate_files (base_path m.log_dir) m.max_files s) m.current_file_path)

  module _ (size : String → ℕ) where
    -- The file is longer than the limit.
    abbrev pub is_full : LogManager → F.State → Bool
    is_full m s = reaches (size (or_none (F.read s m.current_file_path))) m.max_file_size_mb

    unfoldable pub write_text : LogManager → String → F.State → LogManager × F.State
    unfolding rotate_files
    write_text m text s =
        let t = F.write_end s m.current_file_path text in
        if not m.is_open
        then (m, s)
        else if is_full m t
        then rotate_and_rewrite m text t
        else (m, t)

    unfoldable pub write :
        Level → String → String → String → LogManager → F.State → LogManager × F.State
    unfolding write_text log_line append
    write level name msg ts m s =
        if ltb (rank level) (rank m.min_level)
        then (m, s)
        else write_text m (append (log_line m ts level name msg) "\n") s

    -- The four calls that write.
    abbrev pub write_debug : String → String → String → LogManager → F.State → LogManager × F.State
    write_debug = write debug

    abbrev pub write_info : String → String → String → LogManager → F.State → LogManager × F.State
    write_info = write info

    abbrev pub write_warn : String → String → String → LogManager → F.State → LogManager × F.State
    write_warn = write warn

    abbrev pub write_error : String → String → String → LogManager → F.State → LogManager × F.State
    write_error = write error_level

    -- Open the current file and write the first line; `init` is called on a closed stream.
    abbrev pub start : String → LogManager → Bool × F.State → StatusCode × LogManager × F.State
    start ts m (false, s) = (error, m, s)
    start ts m (true, s) =
        let (n, t) =
          write info "log_manager" (append "Log system initialized. dir=" m.log_dir) ts
            (record m { is_open = true }) s in
        (ok, n, t)

    abbrev pub configured : String → Level → ℤ → ℤ → LogManager → LogManager
    configured log_dir min_level max_file_size_mb max_files m = record m {
      log_dir = log_dir;
      min_level = min_level;
      max_file_size_mb = max_file_size_mb;
      max_files = max_files;
    }

    abbrev pub open_log : String → LogManager → F.State → StatusCode × LogManager × F.State
    open_log ts m s =
        let path = base_path m.log_dir in
        start ts (record m { current_file_path = path }) (F.open_file s path)

    abbrev pub open_made : String → LogManager → Bool × F.State → StatusCode × LogManager × F.State
    open_made ts m (false, s) = (error, m, s)
    open_made ts m (true, s) = open_log ts m s

    unfoldable pub init :
        String → Level → ℤ → ℤ → String → LogManager → F.State → StatusCode × LogManager × F.State
    unfolding write append
    init log_dir min_level max_file_size_mb max_files ts m s =
        let n = configured log_dir min_level max_file_size_mb max_files m in
        if F.has_directory s log_dir
        then open_log ts n s
        else open_made ts n (F.create_directories s log_dir)
