-- ===== src/Ledger/Appends.antt =====
-- One append: when its line is in the journal, and when it reports success.
use tinvest.Prelude.{suc, Bool, true, false, ◌≡◌, refl, [], ◌∷◌, ◌++◌, if◌then◌else◌}
use tinvest.Ledger.{
  Io, stored, refused, unwritten, unsynced, Record, Entry, Env, Journal, seq_after, append_line,
  write_record,
}

abbrev pub is_stored : Io → Bool
is_stored stored = true
is_stored _ = false

-- The record as `append` stores it.
abbrev pub numbered : Env → Journal → Record → Record
numbered env j r = record r { seq = suc (seq_after env.opened j.seq); ts = env.now }

abbrev pub with_line : Env → Journal → Record → Journal
with_line env j r = record {
  seq = suc (seq_after env.opened j.seq);
  records = j.records ++ numbered env j r ∷ [];
}

-- The line is in the journal, whether or not the append reports success.
abbrev pub lands : Io → Bool
lands stored = true
lands unsynced = true
lands _ = false

append_io :
    (env : Env) (r : Record) (j : Journal) (io : Io)
    → env.io ≡ io
    → (append_line env r j).0.records
      ≡ (if lands io then j.records ++ numbered env j r ∷ [] else j.records)
unfolding append_line
append_io env r j stored h = rw h refl
append_io env r j refused h = rw h refl
append_io env r j unwritten h = rw h refl
append_io env r j unsynced h = rw h refl

pub write_record-records :
    (env : Env) (e : Entry) (r : Record) (j : Journal)
    → (write_record env e r j).1.records
      ≡ (if lands env.io then j.records ++ numbered env j r ∷ [] else j.records)
unfolding write_record
write_record-records env e r j = append_io env r j env.io refl

append_failed :
    (env : Env) (r : Record) (j : Journal) (io : Io)
    → env.io ≡ io
    → (append_line env r j).1 ≡ is_stored io
unfolding append_line
append_failed env r j stored h = rw h refl
append_failed env r j refused h = rw h refl
append_failed env r j unwritten h = rw h refl
append_failed env r j unsynced h = rw h refl

pub write_record-done :
    (env : Env) (e : Entry) (r : Record) (j : Journal)
    → (write_record env e r j).2 ≡ is_stored env.io
unfolding write_record
write_record-done env e r j = append_failed env r j env.io refl
