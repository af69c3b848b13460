-- ===== src/Checkpoint/Commit/Reopened.antt =====
-- src/checkpoint.cpp: a checkpoint file that is opened from the metafile that a commit wrote.
use stldb.Prelude.{ℕ, ap, ◌∙◌}
use stldb.Checkpoint.Regions.{is_free}
use stldb.Checkpoint.File.{CheckpointOfstream, open_info}
use stldb.Checkpoint.Extend.{IsValid}
use stldb.Checkpoint.Merge.{is_defragmented, IsFreed, IsReconciled, add_free_space-IsReconciled}
use stldb.Checkpoint.Reopen.{open_info-IsValid}
use stldb.Checkpoint.Commit.{committed}

-- A valid file with new free regions that lie apart and were in use, once committed and opened again from the metafile, is
-- valid and as long, has a byte free if it was or if it was in a new free region, with no two free regions that touch and
-- no new free regions.
pub committed-IsReconciled :
    (lsn_at_start lsn_at_end : ℕ) (c : CheckpointOfstream)
    → IsValid c
    → IsFreed c
    → IsReconciled c (open_info (committed lsn_at_start lsn_at_end c).info)
unfolding committed open_info
committed-IsReconciled lsn_at_start lsn_at_end c h f =
    let r = add_free_space-IsReconciled c h f in
    let c' = committed lsn_at_start lsn_at_end c in
    let (same, valid, emptied) =
      open_info-IsValid c' (record { apart = r.valid.apart; agree = r.valid.agree }) in
    record {
      valid = valid;
      same_length = r.same_length;
      emptied = emptied;
      bytes = λ x. ap (is_free x) same ∙ r.bytes x;
      defragmented = ap is_defragmented same ∙ r.defragmented;
    }
