-- ===== src/Write/Save/Log.antt =====
-- The log after a save: the header with the new snapshot id, and the old and the new records.
use bxdb.Base.{ℕ, ◌≡◌, refl, sym, ap, ◌∙◌, List, [], ◌∷◌, ◌++◌, append_assoc, append-nil}
use bxdb.Base.Bytes.{to_le_bytes}
use bxdb.Chunk.Record.{ChunkRecord, write_to}
use bxdb.Format.{write_header, write_log_header}
use bxdb.Log.Records.{write_records}
use bxdb.Store.Lookup.{log_of}
use bxdb.Write.Save.{append_records}

write_records-append :
    (xs ys : List ChunkRecord) → write_records (xs ++ ys) ≡ write_records xs ++ write_records ys
unfolding write_records
write_records-append [] ys = refl
write_records-append (x ∷ xs) ys =
    ap (write_to x ++◌) (write_records-append xs ys)
    ∙ sym (append_assoc (write_to x) (write_records xs) (write_records ys))

pub append_records-log_of :
    (max_snap s : ℕ) (old new : List ChunkRecord)
    → append_records (log_of max_snap old []) new s ≡ log_of s (old ++ new) []
unfolding append_records write_header to_le_bytes
append_records-log_of max_snap s old new =
    ap (λ t. write_log_header s ++ t)
      (ap (λ t. t ++ write_records new) (append-nil (write_records old))
        ∙ sym (write_records-append old new)
        ∙ sym (append-nil (write_records (old ++ new))))
