-- ===== src/Recovery/Replay.antt =====
-- stldb/recovery_manager.h: what is redone of a log file that log() wrote.
use mathlib.Core.Option
use mathlib.Core.List.{append_assoc}
use stldb.Prelude.{
  ℕ, zero, suc, ◌+◌, ◌≡◌, ◌<◌, ◌≤◌, ap, ◌∙◌, Bool, false, Option, some, List, [], ◌∷◌, ◌++◌, arith,
  ◌==◌, length, if◌then◌else◌,
}
use stldb.Logging.{LogHeader}
use stldb.Logger.Write.{record_bytes, padding_bytes}
use stldb.LogReader.{
  LogReader, Reading, returned, no_transaction, read_record, unless_skipped, count_txn,
  read_next_txn, next_transaction, new_log_reader,
}
use stldb.LogReader.Written.{
  Item, buffer, pad, log_bytes, AreItems, after_record, read_record-buffer_item,
  read_record-pad_item,
}
use stldb.LogReader.End.{read_record-zeros, zeros}
use stldb.Recovery.{Ending, complete, recover_file, recover_next}

module _ {State : Type 0} (recover_txn : State → LogHeader → List ℕ → State) where
  -- Redoing the committed buffers of a log, one after the other, and the LSN of the last one.
  abbrev redone : List Item → State → State
  redone [] s = s
  redone (buffer b ∷ items) s = redone items (recover_txn s b.header b.bytes)
  redone (pad p ∷ items) s = redone items s

  abbrev max_redone : List Item → ℕ → ℕ
  max_redone [] lsn = lsn
  max_redone (buffer b ∷ items) lsn = max_redone items b.header.lsn
  max_redone (pad p ∷ items) lsn = max_redone items lsn

  -- The rest of the loop, after a record was read with the fuel k left to the read.
  goes_on : ℕ → ℕ → ℕ → State → ℕ → LogReader × Reading → Option (State × ℕ × Ending)
  goes_on k reads n s max_lsn t =
      recover_next recover_txn (recover_file recover_txn reads n) s max_lsn
        (Option.map count_txn (unless_skipped (read_next_txn k) t))

  goes_on-returned :
      (k reads n : ℕ) (s : State) (max_lsn lsn : ℕ) (r : LogReader)
      → lsn < no_transaction
      → goes_on k reads (suc n) s max_lsn (r, returned lsn)
        ≡ recover_next recover_txn
            (recover_file recover_txn reads n)
            (recover_txn s r.header r.buffer)
            lsn
            (next_transaction reads (record r { last_txn = lsn; txn_count = r.txn_count + 1 }))
  unfolding goes_on recover_file
  goes_on-returned k reads n s max_lsn lsn r h =
      let counted : Bool → LogReader =
        λ c. if c then r else record r { last_txn = lsn; txn_count = r.txn_count + 1 } in
      let different : (lsn == no_transaction) ≡ false = ground (arith, h) in
      ap
        (λ c.
          if c
          then some (s, max_lsn, complete)
          else recover_next recover_txn (recover_file recover_txn reads n)
              (recover_txn s (counted c).header (counted c).buffer) lsn
              (next_transaction reads (counted c)))
        different

  -- From the state of the loop where `k` is the fuel left to the read that is under way.
  redone-from :
      (items : List Item) (k reads n z : ℕ) (s : State) (max_lsn : ℕ) (r : LogReader)
      → AreItems items
      → length items < k
      → length items < reads
      → length items ≤ n
      → recover_next recover_txn
          (recover_file recover_txn reads n)
          s
          max_lsn
          (Option.map count_txn (read_next_txn k (record r { rest = log_bytes items ++ zeros z })))
        ≡ some (redone items s, max_redone items max_lsn, complete)
  unfolding read_next_txn after_record goes_on next_transaction
  redone-from items zero reads n z s max_lsn r h k1 k2 k3 = absurd (omega (arith, k1))
  redone-from [] (suc k) reads n z s max_lsn r h k1 k2 k3 =
      let (r', e) = read_record-zeros r z in ap (goes_on k reads n s max_lsn) e
  redone-from (pad p ∷ items) (suc k) reads n z s max_lsn r h k1 k2 k3 =
      let more = log_bytes items ++ zeros z in
      let (q, bytes, e) = read_record-pad_item r p more h.0 in
      ap (λ t. goes_on k reads n s max_lsn (read_record (record r { rest = t })))
        (append_assoc (padding_bytes p) (log_bytes items) (zeros z))
      ∙ ap (goes_on k reads n s max_lsn) e
      ∙ redone-from items k reads n z s max_lsn (after_record r q bytes more) h.1
          (omega (arith, k1)) (omega (arith, k2)) (omega (arith, k3))
  redone-from (buffer b ∷ items) (suc k) reads zero z s max_lsn r h k1 k2 k3 =
      absurd (omega (arith, k3))
  redone-from (buffer b ∷ items) (suc k) reads (suc n) z s max_lsn r h k1 k2 k3 =
      let more = log_bytes items ++ zeros z in
      let (e, l) = read_record-buffer_item r b more h.0 in
      let r1 = after_record r b.header b.bytes more in
      let r2 = record r1 { last_txn = b.header.lsn; txn_count = r1.txn_count + 1 } in
      ap (λ t. goes_on k reads (suc n) s max_lsn (read_record (record r { rest = t })))
        (append_assoc (record_bytes b) (log_bytes items) (zeros z))
      ∙ ap (goes_on k reads (suc n) s max_lsn) e
      ∙ goes_on-returned k reads n s max_lsn b.header.lsn r1 l
      ∙ redone-from items reads reads n z (recover_txn s b.header b.bytes) b.header.lsn r2 h.1
          (omega (arith, k2)) (omega (arith, k2)) (omega (arith, k3))

  -- The loop of recover() over a log file after the first redoes every buffer that queue_for_commit
  -- took and that was written to the file, in the order of the
  -- file and with its header and bytes as queue_for_commit left them, passes over the padding, and
  -- ends at the zeros that follow, or the end of the file, with the LSN of the last buffer. A fuel
  -- above the number of records and paddings is enough.
  pub recover_file-log :
      (items : List Item) (reads n z : ℕ) (s : State) (max_lsn : ℕ)
      → AreItems items
      → length items < reads
      → length items < n
      → recover_file recover_txn reads n s max_lsn (new_log_reader (log_bytes items ++ zeros z))
        ≡ some (redone items s, max_redone items max_lsn, complete)
  unfolding recover_file next_transaction
  recover_file-log items reads zero z s max_lsn h k1 k2 = absurd (omega (arith, k2))
  recover_file-log items reads (suc n) z s max_lsn h k1 k2 =
      redone-from items reads reads n z s max_lsn (new_log_reader []) h k1 k1 (omega (arith, k2))
