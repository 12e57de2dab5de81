-- ===== src/Historian.antt =====
-- local_historian.py: the SQLite table `telemetry_history`. Timestamps are ISO texts, which SQLite
-- compares byte by byte; the clock and the cutoff text are arguments.
pub mod Recent
use bbjsensescada.Common.{
  ℕ, ◌+◌, Bool, true, false, not, ◌&&◌, List, [], ◌∷◌, ◌++◌, map, String, length, filter, ◌==◌,
  if◌then◌else◌, eqb, ltb,
}
use bbjsensescada.Common.Int.{ℤ, int_eq, fits_int64}
use bbjsensescada.Python.{Result, ok, err, integrity_error, overflow_error}
use bbjsensescada.Python.Text.{codes}
use bbjsensescada.Python.Float.{Float, is_nan}

pub record Row : Type 0 where
  pub id : ℕ
  pub device_id : ℤ
  pub tag_id : ℤ
  pub value : Float
  pub quality : String
  pub source_timestamp : String
  pub created_at : String

pub record History : Type 0 where
  pub rows : List Row
  pub next_id : ℕ

-- sqlite3 binds an int of 64 bits, and NOT NULL refuses NaN, which SQLite stores as NULL.
unfoldable pub record_reading : String → ℤ → ℤ → Float → String → String → History → Result History
record_reading now device_id tag_id value quality source_timestamp h =
    if not (fits_int64 device_id && fits_int64 tag_id)
    then err (overflow_error "Python int too large to convert to SQLite INTEGER")
    else if is_nan value
    then err (integrity_error "NOT NULL constraint failed: telemetry_history.value")
    else ok (record {
      rows =
          h.rows
          ++ record {
            id = h.next_id;
            device_id = device_id;
            tag_id = tag_id;
            value = value;
            quality = quality;
            source_timestamp = source_timestamp;
            created_at = now;
          }
            ∷ [];
      next_id = h.next_id + 1;
    })

-- s < t and s <= t for texts, by their code points.
abbrev pub lt_codes : List ℕ → List ℕ → Bool
lt_codes s [] = false
lt_codes [] (b ∷ t) = true
lt_codes (a ∷ s) (b ∷ t) = if ltb a b then true else if eqb a b then lt_codes s t else false

abbrev pub lt_text : String → String → Bool
lt_text s t = lt_codes (codes s) (codes t)

abbrev pub le_text : String → String → Bool
le_text s t = not (lt_text t s)

-- `cutoff` is the text of the instant HISTORY_RETENTION_DAYS ago.
unfoldable pub prune_old_history : String → History → ℕ × History
prune_old_history cutoff h = (
  length (filter (λ r. lt_text r.created_at cutoff) h.rows),
  record h { rows = filter (λ r. not (lt_text r.created_at cutoff)) h.rows },
)

-- ORDER BY source_timestamp, rows of one timestamp in the order of the index.
unfoldable pub insert_by_time : Row → List Row → List Row
insert_by_time r [] = r ∷ []
insert_by_time r (q ∷ rs) =
    let rest = insert_by_time r rs in
    if lt_text q.source_timestamp r.source_timestamp then q ∷ rest else r ∷ q ∷ rs

unfoldable pub sort_by_time : List Row → List Row
sort_by_time [] = []
sort_by_time (r ∷ rs) = insert_by_time r (sort_by_time rs)

abbrev pub matches : ℤ → ℤ → String → Row → Bool
matches device_id tag_id since_iso r =
    r.device_id == device_id && r.tag_id == tag_id && le_text since_iso r.source_timestamp

unfoldable pub get_recent_readings : ℤ → ℤ → String → History → List Row
get_recent_readings device_id tag_id since_iso h =
    sort_by_time (filter (matches device_id tag_id since_iso) h.rows)
