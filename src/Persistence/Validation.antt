-- ===== src/Persistence/Validation.antt =====
-- packages/persistence/src/index.ts and sqlite.ts: error codes, and the checks of the records'
-- strings. A timestamp that `validateTimestamp` accepts is a canonical ISO text, whose order is that
-- of the times: it is a number of milliseconds here.
use Prim.Native.String.{String}
use wats.Base.{ℕ, ◌+◌, Bool, ◌&&◌, ◌||◌, not, List, [], ◌∷◌, any, ltb, leb, ◌==◌, if◌then◌else◌}
use wats.Base.Text.{codes}
use wats.Base.Result.{Result, guard}
use wats.Graph.RetryAfter.{is_space}

-- `PersistenceErrorCode`
pub data ErrorCode : Type 0 where
  invalid_options invalid_filename invalid_record migration_failed migration_checksum_mismatch
        migration_lock_failed outbox_failed claim_failed completion_failed store_closed :
      ErrorCode

unfoldable pub is_control : ℕ → Bool
is_control c = ltb c 0x20 || c == 0x7f

-- `hasControlChars`
unfoldable pub has_control_chars : List ℕ → Bool
has_control_chars s = any is_control s

-- `value.length`, in UTF-16 code units
pub utf16_length : List ℕ → ℕ
utf16_length [] = 0
utf16_length (c ∷ s) = (if ltb c 0x10000 then 1 else 2) + utf16_length s

-- `value.trim().length === 0`
unfoldable pub is_blank : List ℕ → Bool
is_blank s = not (any (λ c. not (is_space c)) s)

-- `validateRecordString`
unfoldable pub is_record_string : String → Bool
unfolding is_blank utf16_length has_control_chars is_control is_space
is_record_string value =
    not (is_blank (codes value))
    && (leb (utf16_length (codes value)) 1024 && not (has_control_chars (codes value)))

abbrev pub validate_string : String → Result ErrorCode (Unit {0})
validate_string value = guard (is_record_string value) invalid_record
