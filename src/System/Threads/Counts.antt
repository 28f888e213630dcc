-- ===== src/System/Threads/Counts.antt =====
-- How often an imago stands in the queues, and that the threads neither copy nor lose one.
use mlvm.Base.{
  ℕ, ◌+◌, ◌-◌, ◌≤◌, ◌≡◌, refl, sym, ap, subst, false, List, [], ◌∷◌, ◌++◌, if◌then◌else◌, if_intro,
  ◌==◌, arith, Option-cases, ◌⊎◌, inl, inr,
}
use mlvm.System.Queue.Pool.{imago_terminate, imago_ready, imago_error}
use mlvm.System.Threads.{
  Icb, System, Name, engine, memory, out, creator, timer, waiting_mem, internal, queue, set_queue,
  icb_put_q, icb_put, is_invalid, first_icb, go_on, put_in, with_icb, shut_down, must_stop,
  destination, route, set_icb, set_status, imago_scheduler, after_mmanager, imago_memory, e_succeed,
  e_memory_out, e_ressource_busy,
}

abbrev pub one : ℕ → ℕ → ℕ
one a b = if a == b then 1 else 0

abbrev pub times : ℕ → List ℕ → ℕ
times a [] = 0
times a (x ∷ xs) = one a x + times a xs

-- How often an imago stands in the queues.
abbrev pub count : ℕ → System → ℕ
count a s =
    times a s.engine_queue
    + times a s.memory_queue
    + times a s.out_queue
    + times a s.creator_queue
    + times a s.timer_queue
    + times a s.waiting_mem_queue
    + times a s.internal_queue

pub times-snoc : (a b : ℕ) (xs : List ℕ) → times a (xs ++ (b ∷ [])) ≡ times a xs + one a b
times-snoc a b [] = omega arith
times-snoc a b (x ∷ xs) = omega (arith, times-snoc a b xs)

pub count-set_queue :
    (a : ℕ) (n : Name) (xs : List ℕ) (s : System)
    → count a (set_queue n xs s) + times a (queue n s) ≡ count a s + times a xs
unfolding queue set_queue
count-set_queue a engine xs s = omega arith
count-set_queue a memory xs s = omega arith
count-set_queue a out xs s = omega arith
count-set_queue a creator xs s = omega arith
count-set_queue a timer xs s = omega arith
count-set_queue a waiting_mem xs s = omega arith
count-set_queue a internal xs s = omega arith

pub count-put_q :
    (a : ℕ) (n : Name) (ip : ℕ) (s : System) → count a (icb_put_q n ip s) ≡ count a s + one a ip
unfolding icb_put_q
count-put_q a n ip s =
    omega (arith, count-set_queue a n (queue n s ++ (ip ∷ [])) s, times-snoc a ip (queue n s))

pub count-put :
    (a : ℕ) (n : Name) (ip : ℕ) (s : System) → count a (icb_put n ip s) ≡ count a s + one a ip
unfolding icb_put
count-put a n ip s = count-put_q a n ip s

pub List-cases : (xs : List ℕ) → (xs ≡ []) ⊎ ((x : ℕ) × ((ys : List ℕ) × (xs ≡ x ∷ ys)))
List-cases [] = inl refl
List-cases (x ∷ xs) = inr (x, (xs, refl))

-- The system without the first ICB of a queue.
abbrev pub got : Name → List ℕ → System → System
got n ips s = record (set_queue n ips s) { jobs = s.jobs - 1 }

pub count-got :
    (a : ℕ) (n : Name) (s : System) (ip : ℕ) (ips : List ℕ)
    → queue n s ≡ ip ∷ ips
    → count a (got n ips s) + one a ip ≡ count a s
count-got a n s ip ips h = omega (arith, count-set_queue a n ips s, ap (times a) h)

-- A function that puts back the ICB it is called with.
abbrev pub PutsBack : (ℕ → System → ℕ × System) → Type 0
PutsBack go = (a ip : ℕ) (t : System) → count a (go ip t).1 ≤ count a t + one a ip

pub count-with_icb :
    (a : ℕ) (n : Name) (s : System) (go : ℕ → System → ℕ × System)
    → PutsBack go
    → count a (with_icb n s go).1 ≤ count a s
unfolding go_on first_icb
count-with_icb a n s go h = elim (List-cases (queue n s)) [
  | inl e ↦ rw e (omega arith)
  | inr (ip, (ips, e)) ↦
      let c = count-got a n s ip ips e in
      rw e (
        if_intro (λ (r : ℕ × System). count a r.1 ≤ count a s) (is_invalid ((got n ips s).icbs ip))
          (omega (arith, c)) (omega (arith, c, h a ip (got n ips s))))
]

count-route : (a ip : ℕ) (t : System) → count a (route ip t) ≤ count a t + one a ip
unfolding put_in
count-route a ip t = elim (Option-cases (destination ((t.icbs ip).status))) [
  | inl e ↦ rw e (omega arith)
  | inr (n, e) ↦ rw e (omega (arith, count-put a n ip t))
]

pub imago_scheduler-PutsBack :
    (run : Icb → Icb)
    → PutsBack (λ ip t.
      if must_stop ip t
      then (1, shut_down ip t)
      else (1, route ip (set_icb ip (run (t.icbs ip)) t)))
imago_scheduler-PutsBack run a ip t =
    if_intro (λ (r : ℕ × System). count a r.1 ≤ count a t + one a ip) (must_stop ip t)
      (omega (arith, count-put a out ip (set_status ip imago_terminate t)))
      (count-route a ip (set_icb ip (run (t.icbs ip)) t))

-- The scheduler copies no imago.
pub count-imago_scheduler :
    (a : ℕ) (run : Icb → Icb) (s : System) → count a (imago_scheduler run s).1 ≤ count a s
unfolding imago_scheduler
count-imago_scheduler a run s = count-with_icb a engine s _ (imago_scheduler-PutsBack run)

after_mmanager-count :
    (a r ip : ℕ) (t : System) → count a (after_mmanager r ip t).1 ≡ count a t + one a ip
unfolding after_mmanager
after_mmanager-count a r ip t =
    let P : ℕ × System → Type 0 = λ z. count a z.1 ≡ count a t + one a ip in
    if_intro P (r == e_succeed) (count-put a engine ip (set_status ip imago_ready t)) (
      if_intro P (r == e_memory_out)
        (if_intro P t.mlvm_stop (count-put a out ip (set_status ip imago_terminate t))
          (count-put_q a waiting_mem ip t))
        (if_intro P (r == e_ressource_busy) (count-put a memory ip t) (
          count-put a out ip (set_icb ip (record (t.icbs ip) { status = imago_error; nl = r }) t))))

set_queue-icbs : (n : Name) (xs : List ℕ) (s : System) → (set_queue n xs s).icbs ≡ s.icbs
unfolding set_queue
set_queue-icbs engine xs s = refl
set_queue-icbs memory xs s = refl
set_queue-icbs out xs s = refl
set_queue-icbs creator xs s = refl
set_queue-icbs timer xs s = refl
set_queue-icbs waiting_mem xs s = refl
set_queue-icbs internal xs s = refl

with_icb-got :
    (n : Name) (s : System) (go : ℕ → System → ℕ × System) (ip : ℕ) (ips : List ℕ)
    → queue n s ≡ ip ∷ ips
    → is_invalid (s.icbs ip) ≡ false
    → with_icb n s go ≡ go ip (got n ips s)
unfolding go_on first_icb
with_icb-got n s go ip ips e i = rw (e, set_queue-icbs n ips s, i) refl

-- The memory manager's thread keeps the ICB that it got, whatever `mmanager` makes of it, unless
-- that one is invalid.
pub count-imago_memory :
    (a ip : ℕ) (ips : List ℕ) (mmanager : Icb → ℕ × Icb) (s : System)
    → queue memory s ≡ ip ∷ ips
    → is_invalid (s.icbs ip) ≡ false
    → count a (imago_memory mmanager s).1 ≡ count a s
unfolding imago_memory
count-imago_memory a ip ips mmanager s e i =
    let t = got memory ips s in
    let c = count-got a memory s ip ips e in
    let r = mmanager (t.icbs ip) in
    let P : ℕ × System → Type 0 = λ z. count a z.1 ≡ count a s in
    subst P (sym (with_icb-got memory s _ ip ips e i)) (
      if_intro P (must_stop ip t)
        (omega (arith, c, count-put a out ip (set_status ip imago_terminate t)))
        (omega (arith, c, after_mmanager-count a r.0 ip (set_icb ip r.1 t))))

pub count-imago_memory_le :
    (a : ℕ) (mmanager : Icb → ℕ × Icb) (s : System)
    → count a (imago_memory mmanager s).1 ≤ count a s
unfolding imago_memory
count-imago_memory_le a mmanager s = count-with_icb a memory s _ λ a ip t.
    if_intro (λ (r : ℕ × System). count a r.1 ≤ count a t + one a ip) (must_stop ip t)
      (omega (arith, count-put a out ip (set_status ip imago_terminate t)))
      (omega (
        arith,
        after_mmanager-count a (mmanager (t.icbs ip)).0 ip (set_icb ip (mmanager (t.icbs ip)).1 t),
      ))
