-- ===== src/Examples/Log.antt =====
-- Tests of src/middleware/storage/log_manager.cpp, and its theorems at concrete inputs.
use iot_dev_sys.Common.{ℕ, String, true, ◌≡◌, refl, none, some, arith, ◌==◌, [], ◌∷◌}
use iot_dev_sys.Common.Int.{pos, ◌-ℤ◌}
use iot_dev_sys.Common.Text.{append, concat, lacks}
use iot_dev_sys.Common.Dict.{Dict, lookup}
use iot_dev_sys.Log.{
  LogManager, new_log_manager, info, warn, log_line, write, rotate_files, rotated, json_escape,
}
use iot_dev_sys.Log.Recent.{export_recent, join_lines, recent_lines}
use iot_dev_sys.Log.Files.{memory, memory-IsLawful}
use iot_dev_sys.Log.Rotate.{base_other, other_false, Moved, rotate_files-Moved}
use iot_dev_sys.Log.Escape.{is_clean}
use iot_dev_sys.Log.Entry.{read_entry, read_entry-log_line}
use iot_dev_sys.Log.Write.{Rotated, write-Rotated}
use iot_dev_sys.Log.Export.{file_of, export_recent-write}

-- The current file and two rotated ones.
abbrev files : Dict String
files =
    ("d/dev-sys-cloud.log", "c\n")
    ∷ ("d/dev-sys-cloud.log.0", "b\n")
    ∷ ("d/dev-sys-cloud.log.1", "a\n")
    ∷ []

abbrev logger : LogManager
logger = record new_log_manager {
  log_dir = "d";
  max_files = pos 2;
  max_file_size_mb = pos 1;
  current_file_path = "d/dev-sys-cloud.log";
  is_open = true;
}

rotate_files-Moved_example :
    Moved memory "d/dev-sys-cloud.log" 2 files
      (rotate_files memory "d/dev-sys-cloud.log" (pos 2) files)
rotate_files-Moved_example =
    rotate_files-Moved memory memory-IsLawful "d/dev-sys-cloud.log" (pos 2) files (omega arith)

read_entry-log_line_example :
    read_entry (log_line logger "2026-06-27T12:00:00.000Z" info "mqtt" "say \"hi\"\n")
    ≡ some (record {
      ts = "2026-06-27T12:00:00.000Z";
      level = "INFO";
      name = "mqtt";
      msg = "say \"hi\"\n";
      trace_id = "";
    })
unfolding json_escape new_log_manager is_clean
read_entry-log_line_example =
    read_entry-log_line logger "2026-06-27T12:00:00.000Z" info "mqtt" "say \"hi\"\n" refl refl refl
      refl refl

write-Rotated_example :
    Rotated memory "d/dev-sys-cloud.log" 2
      (append (log_line logger "2026-06-27T12:00:00.000Z" warn "mqtt" "lost") "\n")
      files
      (write memory (λ t. 1048576) warn "mqtt" "lost" "2026-06-27T12:00:00.000Z" logger files).1
unfolding new_log_manager append
write-Rotated_example =
    write-Rotated memory memory-IsLawful (λ s p. refl) (λ t. 1048576) warn "mqtt" "lost"
      "2026-06-27T12:00:00.000Z" logger files refl refl refl (omega arith) refl

abbrev one_file : Dict String
one_file = ("d/dev-sys-cloud.log", "") ∷ []

one_file_fresh : (i : ℕ) → lookup (rotated "d/dev-sys-cloud.log" i) one_file ≡ none
unfolding lookup
one_file_fresh i =
    rw
      (other_false "d/dev-sys-cloud.log" (rotated "d/dev-sys-cloud.log" i)
        (base_other "d/dev-sys-cloud.log" i))
      refl

export_recent-write_example :
    (let (n, t) =
        write memory (λ t. 7) warn "mqtt" "lost" "2026-06-27T12:00:00.000Z" logger one_file in
      export_recent memory (λ t. some (pos 5000)) (pos 8000) (pos 1) n t)
    ≡ concat (
        "["
        ∷ join_lines (log_line logger "2026-06-27T12:00:00.000Z" warn "mqtt" "lost" ∷ [])
        ∷ "]"
        ∷ [])
unfolding ◌-ℤ◌ new_log_manager append lookup ◌==◌ file_of lacks recent_lines
export_recent-write_example =
    export_recent-write memory memory-IsLawful (λ t. some (pos 5000)) (λ t. 7) (pos 8000) (pos 1)
      warn "mqtt" "lost" "2026-06-27T12:00:00.000Z" logger one_file [] refl refl refl refl refl tt
      (one_file_fresh) refl refl
