-- ===== src/Storage/MemTable/Flushed.antt =====
-- What Flush (storage/zstorage/memtable.go) leaves of the lists, the files and the credit.

use ban_db.Prelude.{
  ◌+◌, ◌<◌, ◌==◌, ◌≡◌, refl, sym, ◌∙◌, ap, List, [], ◌∷◌, length, length-append, Bool, none, some,
  if◌then◌else◌, arith, Bool-cases, Option-cases, inl, inr,
}
use ban_db.Prelude.Int.{ℤ, pos, ◌+ℤ◌, int_laws}
use ban_db.Bytes.{Bytes}
use ban_db.Storage.SkipList.{SkipList, collect_all_entry}
use ban_db.Storage.Format.{Format}
use ban_db.Credit.{Pool}
use ban_db.Storage.MemTable.{Meta, MemTable, find, write_to_sstable, flush_begin, flush_end}
use ban_db.Storage.MemTable.Valid.{IsValid}
use ban_db.Storage.MemTable.Flush.{
  begin_idle, begin_swap, begin_retry, end_failed, end_written, flush-IsValid,
}
use ban_db.Storage.MemTable.Reads.{find-flush_begin, find-flush_end}
use ban_db.Storage.MemTable.Snapshot.{refused, taken}

module _ (fmt : Format) where
  open fmt use {File}

  begin-kept :
      (m : MemTable File)
      → ((flush_begin fmt m).metas ≡ m.metas) × ((flush_begin fmt m).pool ≡ m.pool)
  begin-kept m = elim (Option-cases m.dirty) [
    | inr (d, e) ↦ rw (begin_retry fmt m d e) (refl, refl)
    | inl e ↦ elim (Bool-cases (m.active.size == 0)) [
      | inl z ↦ rw (begin_idle fmt m e z) (refl, refl)
      | inr z ↦ rw (begin_swap fmt m e z) (refl, refl)
    ]
  ]

  plus_nothing : (n : ℤ) → n +ℤ pos 0 ≡ n
  plus_nothing n = omega int_laws

  -- What the second half leaves of a dirty list `d`.
  record Ended (io : Bool) (d : SkipList) (m m' : MemTable File) : Type 0 where
    dirty : m'.dirty ≡ (if io then none else some d)
    metas : length m'.metas ≡ length m.metas + (if io then 1 else 0)
    credit : m'.pool.used ≡ (if io then m.active.byte_size else m.pool.used)

  flush_end-Ended :
      (io : Bool) (d : SkipList) (m : MemTable File)
      → IsValid fmt m
      → m.dirty ≡ some d
      → 0 < length d.nodes
      → Ended io d m (flush_end fmt io m)
  unfolding collect_all_entry
  flush_end-Ended io d m v e some_node =
      elim (Option-cases (write_to_sstable fmt io (collect_all_entry d))) [
        | inl w ↦
            let off = refused fmt io d.nodes some_node w in
            rw (end_failed fmt m io d e w) (record {
              dirty = e ∙ ap (λ b. if b then none else some d) (sym off);
              metas = rw off (omega arith);
              credit = ap (λ b. if b then m.active.byte_size else m.pool.used) (sym off);
            })
        | inr (meta, w) ↦
            let on = taken fmt io _ meta w in
            let valid : IsValid fmt (flush_end fmt io m) = (flush-IsValid fmt m io v).1 in
            let ended = end_written fmt m io d meta e w in
            let books : (flush_end fmt io m).pool.used ≡ m.active.byte_size +ℤ pos 0 =
              valid.credited ∙ rw ended refl in
            record {
              dirty =
                  ap (λ (t : MemTable File). t.dirty) ended
                  ∙ ap (λ b. if b then none else some d) (sym on);
              metas =
                  ap (λ (t : MemTable File). length t.metas) ended
                  ∙ length-append m.metas (meta ∷ [])
                  ∙ ap (λ b. length m.metas + (if b then 1 else 0)) (sym on);
              credit =
                  books
                  ∙ plus_nothing m.active.byte_size
                  ∙ ap (λ b. if b then m.active.byte_size else m.pool.used) (sym on);
            }
      ]

  -- A Flush that finds a list with a node in it, in its first half or from a failed flush before: where
  -- the file system works (`io`) the list is gone from memory, there is one file more, and the credit that
  -- is out is the active list's bytes; where it fails the list stays dirty, there is no new file, and the
  -- credit is as before. After each half every key is found as before and the table is valid. The table is
  -- valid at the start, and no write runs between the halves.
  pub flush-find :
      (io : Bool) (m : MemTable File) (d : SkipList) (j : Bytes)
      → IsValid fmt m
      → (flush_begin fmt m).dirty ≡ some d
      → 0 < length d.nodes
      → (let begun = flush_begin fmt m in
          let ended = flush_end fmt io begun in
          IsValid fmt begun
          × IsValid fmt ended
          × (find fmt begun j ≡ find fmt m j)
          × (find fmt ended j ≡ find fmt m j)
          × (ended.dirty ≡ (if io then none else some d))
          × (length ended.metas ≡ length m.metas + (if io then 1 else 0))
          × (ended.pool.used ≡ (if io then begun.active.byte_size else m.pool.used)))
  flush-find io m d j v e some_node =
      let begun = flush_begin fmt m in
      let (metas, pool) = begin-kept m in
      let valid = (flush-IsValid fmt m io v).0 in
      let after = flush_end-Ended io d begun valid e some_node in
      (
        valid,
        (flush-IsValid fmt begun io valid).1,
        find-flush_begin fmt m j,
        find-flush_end fmt io begun j valid ∙ find-flush_begin fmt m j,
        after.dirty,
        after.metas ∙ ap (λ (ms : List (Meta File)). length ms + (if io then 1 else 0)) metas,
        after.credit ∙ ap (λ (p : Pool). if io then begun.active.byte_size else p.used) pool,
      )
