-- ===== src/Log/Recent.antt =====
-- `LogManager::export_recent` of src/middleware/storage/log_manager.cpp. `read_time` is `std::get_time` with
-- `timegm`: the seconds of a text like 2026-06-27T12:00:00, none where it fails.
use iot_dev_sys.Common.{
  ℕ, zero, suc, ◌+◌, ◌*◌, String, Bool, false, not, List, [], ◌∷◌, ◌++◌, Option, none, some,
  is_empty, is_some, if◌then◌else◌,
}
use iot_dev_sys.Common.Int.{ℤ, pos, negsuc, neg, pos_part, ltb_ℤ, ◌-ℤ◌}
use iot_dev_sys.Common.Text.{append, concat}
use iot_dev_sys.Json.{until, after}
use iot_dev_sys.Api.Parse.{lines, take}
use iot_dev_sys.Log.{FileSystem, LogManager, base_path, rotated}

unfoldable pub join_lines : List String → String
unfolding append
join_lines [] = ""
join_lines (l ∷ []) = l
join_lines (l ∷ k ∷ ls) = append l (append "," (join_lines (k ∷ ls)))

-- `std::chrono::hours`, in seconds.
abbrev pub hours_of : ℤ → ℤ
hours_of (pos n) = pos (n * 3600)
hours_of (negsuc n) = neg ((n + 1) * 3600)

module _ (read_time : String → Option ℤ) where
  -- The line has a time that is not before the cutoff.
  unfoldable pub is_recent : ℤ → String → Bool
  unfolding until after take
  is_recent cutoff line = if is_empty line then false else elim (after "\"ts\":\"" line) [
    | none ↦ false
    | some rest ↦ elim (until "\"" rest) [
      | none ↦ false
      | some ts ↦ elim (read_time (take 19 ts)) [
        | none ↦ false
        | some epoch ↦ not (ltb_ℤ epoch cutoff)
      ]
    ]
  ]

  unfoldable pub recent_lines : ℤ → List String → List String
  unfolding is_recent
  recent_lines cutoff [] = []
  recent_lines cutoff (l ∷ ls) =
      let rest = recent_lines cutoff ls in if is_recent cutoff l then l ∷ rest else rest

module _ (F : FileSystem) where
  -- The rotated files that are there, `i = i₀` first, for `n` numbers.
  unfoldable pub rotated_files : String → ℕ → ℕ → F.State → List String
  unfolding rotated
  rotated_files base i zero s = []
  rotated_files base i (suc n) s =
      let rest = rotated_files base (suc i) n s in
      if is_some (F.read s (rotated base i)) then rotated base i ∷ rest else rest

  module _ (read_time : String → Option ℤ) where
    unfoldable pub scan_files : ℤ → List String → F.State → List String
    unfolding recent_lines lines
    scan_files cutoff [] s = []
    scan_files cutoff (f ∷ fs) s = elim (F.read s f) [
      | none ↦ scan_files cutoff fs s
      | some t ↦ recent_lines read_time cutoff (lines t) ++ scan_files cutoff fs s
    ]

    unfoldable pub export_recent : ℤ → ℤ → LogManager → F.State → String
    unfolding scan_files rotated_files join_lines concat
    export_recent now hours m s =
        let base = base_path m.log_dir in
        let files = base ∷ rotated_files base 0 (pos_part m.max_files) s in
        concat ("[" ∷ join_lines (scan_files (now -ℤ hours_of hours) files s) ∷ "]" ∷ [])
