-- ===== src/Storage/MemTable/Valid.antt =====
-- The invariant of MemTable (storage/zstorage/memtable.go), and that every operation keeps it.
use ban_db.Prelude.{
  ℕ, ◌+◌, ◌<◌, ◌≡◌, refl, sym, ap, ◌∙◌, List, [], ◌∷◌, length, Option, none, some, if◌then◌else◌,
  arith, Bool-cases, inl, inr,
}
use ban_db.Prelude.Int.{ℤ, pos, pos_part, neg_part, ◌+ℤ◌, ◌-ℤ◌, eq_ℤ, int_laws, eq_ℤ→eq}
use ban_db.Bytes.{Bytes}
use ban_db.Credit.{Pool, try_acquire, acquire, release}
use ban_db.Storage.SkipList.{SkipList, value_len, insert}
use ban_db.Storage.SkipList.Table.{AllNodes, All-put, weight}
use ban_db.Storage.SkipList.Refine as Refine
use ban_db.Storage.Entries.{Entry, IsAscending, All, last_key}
use ban_db.Storage.Format.{Format}
use ban_db.Storage.MemTable.{
  Meta, MemTable, new_mem_table, acquire_credit, write_entry, put, delete,
}

-- The books of a write: what was taken in advance, less what is given back, is what the table grew by.
settle : (p : Pool) (over : ℤ) → Pool
settle p over = if eq_ℤ over (pos 0) then p else release p over

release_exact : (p : Pool) (n : ℤ) (t : ℕ) → p.used -ℤ n ≡ pos t → (release p n).used ≡ pos t
unfolding release
release_exact p n t e = rw e (ground arith)

settle-used :
    (p : Pool) (a d full delta : ℤ) (w wd : ℕ)
    → p.used ≡ a +ℤ d +ℤ full
    → a +ℤ delta ≡ pos w
    → d ≡ pos wd
    → (settle p (full -ℤ delta)).used ≡ a +ℤ delta +ℤ d
unfolding settle
settle-used p a d full delta w wd hu hw hd =
    let sum : a +ℤ delta +ℤ d ≡ pos (w + wd) = rw (hw, hd) (omega int_laws) in
    elim (Bool-cases (eq_ℤ (full -ℤ delta) (pos 0))) [
      | inl z ↦
          let e = eq_ℤ→eq (full -ℤ delta) (pos 0) z in
          rw (z, hu) (omega (int_laws, ap pos_part e, ap neg_part e))
      | inr z ↦
          let back : p.used -ℤ (full -ℤ delta) ≡ a +ℤ delta +ℤ d = rw hu (omega int_laws) in
          rw z (release_exact p (full -ℤ delta) (w + wd) (back ∙ sum) ∙ sym sum)
    ]

pub release-used :
    (p : Pool) (a d : ℤ) (wa : ℕ) → p.used ≡ a +ℤ d → a ≡ pos wa → (release p d).used ≡ a +ℤ pos 0
release-used p a d wa hu ha =
    let back : p.used -ℤ d ≡ a = rw hu (omega int_laws) in
    release_exact p d wa (back ∙ ha) ∙ sym ha ∙ omega int_laws

module _ (fmt : Format) where
  open fmt use {File, write, Fits}

  pub record TableOk (sl : SkipList) : Type 0 where
    pub valid : Refine.IsValid sl
    pub fit : AllNodes Fits sl.nodes

  abbrev pub DirtyOk : Option SkipList → Type 0
  DirtyOk none = Unit
  DirtyOk (some d) = TableOk d

  -- A file that was written from a run of ascending entries, with its first and last key.
  pub record MetaOk (meta : Meta File) : Type 0 where
    pub first : Entry
    pub rest : List Entry
    pub fit : All Fits (first ∷ rest)
    pub ascending : IsAscending (first ∷ rest)
    pub least : meta.min_key ≡ first.0
    pub greatest : meta.max_key ≡ last_key first.0 rest
    pub content : meta.file ≡ write (first ∷ rest)

  abbrev pub AllMetas : List (Meta File) → Type 0
  AllMetas [] = Unit
  AllMetas (m ∷ ms) = MetaOk m × AllMetas ms

  abbrev pub dirty_bytes : Option SkipList → ℤ
  dirty_bytes none = pos 0
  dirty_bytes (some d) = d.byte_size

  -- The lists and files are well formed, and the credit that is out is exactly the bytes that are not
  -- on disk.
  pub record IsValid (m : MemTable File) : Type 0 where
    pub active_ok : TableOk m.active
    pub dirty_ok : DirtyOk m.dirty
    pub metas_ok : AllMetas m.metas
    pub credited : m.pool.used ≡ m.active.byte_size +ℤ dirty_bytes m.dirty

  pub IsValid-new : (budget : ℤ) → IsValid (new_mem_table budget)
  unfolding new_mem_table
  IsValid-new budget = record {
    active_ok = record { valid = Refine.IsValid-new; fit = tt };
    dirty_ok = tt;
    metas_ok = tt;
    credited = omega int_laws;
  }

  pub dirty_weight : (o : Option SkipList) → DirtyOk o → (w : ℕ) × (dirty_bytes o ≡ pos w)
  dirty_weight none ok = (0, refl)
  dirty_weight (some d) ok = (weight d.nodes, ok.valid.weighed)

  pub insert-TableOk :
      (sl : SkipList) (height : ℕ) (key : Bytes) (value : Option Bytes)
      → 0 < height
      → Fits key value
      → TableOk sl
      → TableOk (insert sl height key value).0
  insert-TableOk sl height key value h f ok = record {
    valid = Refine.insert-IsValid sl height key value ok.valid h;
    fit =
        rw (Refine.nodes-insert sl height key value ok.valid)
          (All-put Fits height key value sl.nodes f ok.fit);
  }

module _ (fmt : Format) where
  open fmt use {File}

  -- Acquiring credit changes only the pool and the signal.
  pub kept-acquire_credit :
      (m : MemTable File) (n : ℤ)
      → ((acquire_credit fmt m n).0.active ≡ m.active)
        × ((acquire_credit fmt m n).0.dirty ≡ m.dirty)
        × ((acquire_credit fmt m n).0.metas ≡ m.metas)
  unfolding acquire_credit try_acquire acquire
  kept-acquire_credit m n = ground arith

  used-acquire_credit :
      (m : MemTable File) (n : ℤ)
      → (acquire_credit fmt m n).0.pool.used
        ≡ (if (acquire_credit fmt m n).1 then m.pool.used +ℤ n else m.pool.used)
  unfolding acquire_credit try_acquire acquire
  used-acquire_credit m n = ground arith

  pub kept-write_entry :
      (max : ℕ) (m : MemTable File) (full : ℤ) (height : ℕ) (key : Bytes) (value : Option Bytes)
      → ((write_entry fmt max m full height key value).active
          ≡ (insert m.active height key value).0)
        × ((write_entry fmt max m full height key value).dirty ≡ m.dirty)
        × ((write_entry fmt max m full height key value).metas ≡ m.metas)
  unfolding write_entry
  kept-write_entry max m full height key value = ground arith

  pool-write_entry :
      (max : ℕ) (m : MemTable File) (full : ℤ) (height : ℕ) (key : Bytes) (value : Option Bytes)
      → (write_entry fmt max m full height key value).pool
        ≡ settle m.pool (full -ℤ (insert m.active height key value).1)
  unfolding write_entry settle
  pool-write_entry max m full height key value = ground arith

  open fmt use {Fits}

  write_entry-IsValid :
      (max : ℕ) (m : MemTable File) (full : ℤ) (height : ℕ) (key : Bytes) (value : Option Bytes)
      → 0 < height
      → Fits key value
      → TableOk fmt m.active
      → DirtyOk fmt m.dirty
      → AllMetas fmt m.metas
      → m.pool.used ≡ m.active.byte_size +ℤ dirty_bytes fmt m.dirty +ℤ full
      → IsValid fmt (write_entry fmt max m full height key value)
  write_entry-IsValid max m full height key value h f active dirty metas credited =
      let (a, d, ms) = kept-write_entry max m full height key value in
      let pool = pool-write_entry max m full height key value in
      let (_, _, _, bytes) = Refine.counters-insert m.active height key value active.valid in
      let active' = insert-TableOk fmt m.active height key value h f active in
      let (wd, dirty_pos) = dirty_weight fmt m.dirty dirty in
      record {
        active_ok = rw a active';
        dirty_ok = rw d dirty;
        metas_ok = rw ms metas;
        credited =
            rw (pool, a, d, bytes)
              (settle-used m.pool m.active.byte_size (dirty_bytes fmt m.dirty) full _ _ wd credited
                (sym bytes ∙ active'.valid.weighed) dirty_pos);
      }

  granted-IsValid :
      (max : ℕ) (m : MemTable File) (full : ℤ) (height : ℕ) (key : Bytes) (value : Option Bytes)
      → 0 < height
      → Fits key value
      → IsValid fmt m
      → IsValid fmt (
          if (acquire_credit fmt m full).1
          then write_entry fmt max (acquire_credit fmt m full).0 full height key value
          else (acquire_credit fmt m full).0)
  granted-IsValid max m full height key value h f v =
      let m' = (acquire_credit fmt m full).0 in
      let (a, d, ms) = kept-acquire_credit m full in
      let used = used-acquire_credit m full in
      let active : TableOk fmt m'.active = rw a v.active_ok in
      let dirty : DirtyOk fmt m'.dirty = rw d v.dirty_ok in
      let metas : AllMetas fmt m'.metas = rw ms v.metas_ok in
      elim (Bool-cases (acquire_credit fmt m full).1) [
        | inl e ↦
            let credited : m'.pool.used ≡ m'.active.byte_size +ℤ dirty_bytes fmt m'.dirty +ℤ full =
              rw (a, d, used, e) (ap (λ t. t +ℤ full) v.credited) in
            rw e (write_entry-IsValid max m' full height key value h f active dirty metas credited)
        | inr e ↦ rw e (record {
          active_ok = active;
          dirty_ok = dirty;
          metas_ok = metas;
          credited = rw (a, d, used, e) v.credited;
        })
      ]

  pub table-put :
      (max : ℕ) (m : MemTable File) (height : ℕ) (key : Bytes) (value : Option Bytes)
      → (put fmt max m height key value).0 ≡ (
          let full = pos (length key + value_len value) in
          if (acquire_credit fmt m full).1
          then write_entry fmt max (acquire_credit fmt m full).0 full height key value
          else (acquire_credit fmt m full).0)
  unfolding put
  table-put max m height key value = ground arith

  pub table-delete :
      (max : ℕ) (m : MemTable File) (height : ℕ) (key : Bytes)
      → (delete fmt max m height key).0 ≡ (
          let full = pos (length key) in
          if (acquire_credit fmt m full).1
          then write_entry fmt max (acquire_credit fmt m full).0 full height key none
          else (acquire_credit fmt m full).0)
  unfolding delete
  table-delete max m height key = ground arith

  -- Put and Delete keep the invariant, whether they write or wait for credit: the lists stay well
  -- formed, and the credit that is out stays exactly the bytes that are not on disk. The new node has
  -- at least one level.
  pub put-IsValid :
      (max : ℕ) (m : MemTable File) (height : ℕ) (key : Bytes) (value : Option Bytes)
      → 0 < height
      → Fits key value
      → Fits key none
      → IsValid fmt m
      → IsValid fmt (put fmt max m height key value).0 × IsValid fmt (delete fmt max m height key).0
  put-IsValid max m height key value h f f₀ v = (
    rw table-put
        (granted-IsValid max m (pos (length key + value_len value)) height key value h f v),
    rw table-delete (granted-IsValid max m (pos (length key)) height key none h f₀ v),
  )
