-- ===== src/Memory/Manager.antt =====
-- mmanager, do_contraction and the double buffer of memory/mmanager.c. The collection itself is not
-- modelled: it is an argument here.
use mlvm.Base.{
  ℕ, suc, ◌*◌, ◌-◌, ◌≡◌, arith, Bool, true, false, Option, none, some, if◌then◌else◌, ltb, refl, ap,
  inl, inr, Bool-cases,
}
use mlvm.System.Queue.Pool.{Status, imago_collection, imago_expansion, imago_contraction}

-- E_SUCCEED, E_ILLEGAL_STATUS, E_MEMORY_OUT and E_RESSOURCE_BUSY
pub data ErrorCode : Type 0 where
  e_succeed e_illegal_status e_memory_out e_ressource_busy : ErrorCode

-- `do_contraction`, which does nothing yet.
abbrev pub do_contraction {ℓ} : {A : Type ℓ} → A → ErrorCode × A
do_contraction plt = (e_succeed, plt)

-- What `mmanager` does at a status, where the collection and the expansion are given.
module _ {A : Type 0} (do_collection do_expansion : A → ErrorCode × A) where
  unfoldable pub mmanager : Status → A → ErrorCode × A
  mmanager imago_collection plt = do_collection plt
  mmanager imago_expansion plt = do_expansion plt
  mmanager imago_contraction plt = do_contraction plt
  mmanager _ plt = (e_illegal_status, plt)

-- GC_LIMIT and GC_STATIC
abbrev pub gc_limit : ℕ
gc_limit = 81920

abbrev pub gc_static : ℕ
gc_static = gc_limit * 2

-- The buffer of a collection: the static one, or one of `malloc`.
pub data GcBuffer : Type 0 where
  static_buffer : GcBuffer
  allocated : ℕ → GcBuffer

-- `gc_lock`, and how many buffers `malloc` has given that are not freed.
pub record GcState : Type 0 where
  pub gc_lock : Bool
  pub buffers : ℕ

pub data GcStart : Type 0 where
  started : GcBuffer → ℕ → GcState → GcStart
  refused : ErrorCode → GcState → GcStart

-- The buffer that `malloc` answers with, and the static one, which another collection may have.
abbrev pub gc_malloc : ℕ → Option ℕ → GcState → GcStart
gc_malloc size none g = refused e_memory_out g
gc_malloc size (some p) g = started (allocated p) size (record g { buffers = suc g.buffers })

abbrev pub gc_trylock : Bool → GcState → GcStart
gc_trylock true g = refused e_ressource_busy g
gc_trylock false g = started static_buffer gc_static (record g { gc_lock = true })

-- `do_gc_start` for the `size` words from the collection line to `st`
unfoldable pub do_gc_start : (size : ℕ) → Option ℕ → GcState → GcStart
do_gc_start size answer g =
    if ltb size gc_static then gc_trylock g.gc_lock g else gc_malloc size answer g

-- `do_gc_stop`
unfoldable pub do_gc_stop : GcBuffer → GcState → GcState
do_gc_stop static_buffer g = record g { gc_lock = false }
do_gc_stop (allocated p) g = record g { buffers = g.buffers - 1 }

-- What `do_gc_start` has taken, given back.
abbrev pub undone : GcStart → GcState
undone (started b n g) = do_gc_stop b g
undone (refused e g) = g

-- A collection that stops, or has not started, leaves the lock and the buffers as they were.
pub do_gc_stop-do_gc_start :
    (size : ℕ) (answer : Option ℕ) (g : GcState) → undone (do_gc_start size answer g) ≡ g
unfolding do_gc_start do_gc_stop
do_gc_stop-do_gc_start size answer g = elim (Bool-cases (ltb size gc_static)) [
  | inl small ↦
      rw small (elim (Bool-cases g.gc_lock) [
        | inl held ↦ rw held refl
        | inr open_lock ↦ rw open_lock refl
      ])
  | inr large ↦ rw large (allocates answer)
]
  where
    allocates : (o : Option ℕ) → undone (gc_malloc size o g) ≡ g
    allocates none = refl
    allocates (some p) = ap (λ n. record g { buffers = n }) (omega arith)
