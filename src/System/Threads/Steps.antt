-- ===== src/System/Threads/Steps.antt =====
-- Any order in which the threads of system/ run: no imago is ever twice in the queues.
use mlvm.Base.{
  ℕ, zero, suc, ◌+◌, ◌≤◌, ◌≡◌, inl, inr, refl, sym, subst, Bool, true, Option, none, some, List, [],
  ◌∷◌, if_intro, ◌==◌, ==→eq, Bool-cases, Option-cases, ltb, arith,
}
use mlvm.System.Queue.Chain.{has, remove}
use mlvm.System.Queue.Pool.{imago_ready, imago_error}
use mlvm.System.Threads.{
  Icb, System, Name, engine, timer, internal, queue, set_queue, icb_put, icb_put_q, first_icb,
  set_icb, set_status, is_invalid, imago_scheduler, imago_memory, e_illegal_argument,
}
use mlvm.System.Threads.Sleep.{
  later, first_expired, woken, wake, scan, timer_recall, flush, timer_flush, set_wakeup,
  sleep_until, is_sleeping, time_icb, deadline, sleep, imago_timer_step,
}
use mlvm.System.Threads.Sleep.Wakes.{first_expired-Leads, scan-run}
use mlvm.System.Threads.Counts.{
  one, times, count, count-set_queue, count-put_q, count-put, List-cases, got, count-got,
  count-imago_scheduler, count-imago_memory_le,
}

times-remove :
    (a b : ℕ) (xs : List ℕ) → has b xs ≡ true → times a (remove b xs) + one a b ≡ times a xs
times-remove a b [] h = ground (arith, h)
times-remove a b (x ∷ xs) h = elim (Bool-cases (b == x)) [
  | inl e ↦
      rw e
        (subst (λ z. times a xs + one a z ≡ one a x + times a xs) (sym (==→eq b x e)) (omega arith))
  | inr e ↦ let i : has b xs ≡ true = ground (arith) in rw e (omega (arith, times-remove a b xs i))
]

count-wake :
    (a ip : ℕ) (s : System) → has ip s.internal_queue ≡ true → count a (wake ip s) ≡ count a s
unfolding wake queue
count-wake a ip s h =
    let xs = remove ip s.internal_queue in
    let t = set_queue internal xs s in
    omega (
      arith,
      count-put a engine ip (set_icb ip (woken (s.icbs ip)) t),
      times-remove a ip s.internal_queue h,
      count-set_queue a internal xs s,
    )

-- A predicate on a result, where there is one.
abbrev AllOf : {A : Type 0} → (A → Type 0) → Option A → Type 0
AllOf P none = Unit {0}
AllOf P (some x) = P x

count-scan :
    (a k : ℕ) (clock : ℕ → ℕ) (s : System)
    → AllOf (λ (r : (ℕ → ℕ) × System). count a r.1 ≡ count a s) (scan k clock s)
unfolding scan
count-scan a zero clock s = tt
count-scan a (suc k) clock s =
    let P : Option ((ℕ → ℕ) × System) → Type 0 =
      AllOf (λ (r : (ℕ → ℕ) × System). count a r.1 ≡ count a s) in
    elim (Option-cases (first_expired (clock 0) s s.internal_queue)) [
      | inl e ↦ subst P (sym (scan-run k clock s none e)) refl
      | inr (ip, e) ↦
          let i = (first_expired-Leads (clock 0) ip s s.internal_queue e).1.0 in
          let rest = count-scan a k (later clock) (wake ip s) in
          subst P (sym (scan-run k clock s (some ip) e)) (
            subst
              (λ n.
                AllOf (λ (r : (ℕ → ℕ) × System). count a r.1 ≡ n)
                  (scan k (later clock) (wake ip s)))
              (count-wake a ip s i) rest)
    ]

count-flush :
    (a : ℕ) (ips : List ℕ) (s : System)
    → count a (flush ips s) + times a s.internal_queue ≡ count a s + times a ips
unfolding flush queue icb_put icb_put_q set_queue
count-flush a [] s = omega (arith, count-set_queue a internal [] s)
count-flush a (ip ∷ ips) s =
    let v = record (s.icbs ip) { status = imago_ready } in
    let t = icb_put engine ip (set_icb ip v s) in
    omega (arith, count-flush a ips t, count-put a engine ip (set_icb ip v s))

count-timer_flush : (a : ℕ) (s : System) → count a (timer_flush s) ≡ count a s
count-timer_flush a s = omega (arith, count-flush a s.internal_queue s)

count-set_wakeup :
    (a n : ℕ) (has_timer : Bool) (o : Option ((ℕ → ℕ) × System))
    → AllOf (λ (r : (ℕ → ℕ) × System). count a r.1 ≡ n) o
    → AllOf (λ (r : System × Option ℕ). count a r.0 ≡ n) (set_wakeup has_timer o)
unfolding set_wakeup
count-set_wakeup a n has_timer none h = tt
count-set_wakeup a n has_timer (some r) h = h

-- A result that has no more of the ICB.
abbrev AtMost : ℕ → ℕ → Option (System × Option ℕ) → Type 0
AtMost a n o = AllOf (λ (r : System × Option ℕ). count a r.0 ≤ n) o

AllOf-le :
    (a n k : ℕ) (o : Option (System × Option ℕ))
    → n ≤ k
    → AllOf (λ (r : System × Option ℕ). count a r.0 ≡ n) o
    → AtMost a k o
AllOf-le a n k none h g = tt
AllOf-le a n k (some r) h g = omega (arith, g)

count-sleep_until :
    (a fuel ip : ℕ) (clock : ℕ → ℕ) (has_timer : Bool) (t : System) (o : Option ℕ)
    → AtMost a (count a t + one a ip) (sleep_until fuel clock has_timer ip t o)
unfolding sleep_until timer_recall
count-sleep_until a fuel ip clock has_timer t none =
    let v = record (t.icbs ip) { status = imago_error; nl = e_illegal_argument } in
    omega (arith, count-put a engine ip (set_icb ip v t))
count-sleep_until a fuel ip clock has_timer t (some dday) =
    let v = record (t.icbs ip) { status = imago_ready; dday = 0 } in
    let u = icb_put_q internal ip (set_icb ip (record (t.icbs ip) { dday = dday }) t) in
    if_intro (AtMost a (count a t + one a ip)) (ltb dday (clock 0))
      (omega (arith, count-put a engine ip (set_icb ip v t)))
      (AllOf-le a (count a u) (count a t + one a ip) (timer_recall fuel (later clock) has_timer u)
        (omega
          (arith, count-put_q a internal ip (set_icb ip (record (t.icbs ip) { dday = dday }) t)))
        (count-set_wakeup a (count a u) has_timer (scan fuel (later clock) u)
          (count-scan a fuel (later clock) u)))

AtMost-le : (a n k : ℕ) (o : Option (System × Option ℕ)) → k ≤ n → AtMost a k o → AtMost a n o
AtMost-le a n k none h g = tt
AtMost-le a n k (some r) h g = omega (arith, h, g)

count-time_icb :
    (a n fuel : ℕ) (clock : ℕ → ℕ) (has_timer : Bool) (s t : System) (ip : ℕ)
    → count a t + one a ip ≤ n
    → AtMost a n (time_icb fuel clock has_timer s (some (ip, t)))
unfolding time_icb sleep
count-time_icb a n fuel clock has_timer s t ip h =
    let sleeps = count-sleep_until a fuel ip clock has_timer t (deadline (clock 0) (t.icbs ip)) in
    if_intro (AtMost a n) (is_invalid (t.icbs ip))
      (if_intro (λ (u : System). count a u ≤ n) t.mlvm_stop
        (omega (arith, h, count-timer_flush a t)) (omega (arith, h)))
      (if_intro (AtMost a n) t.mlvm_stop
        (omega (arith, h, count-put a engine ip (set_status ip imago_ready t)))
        (if_intro (AtMost a n) (is_sleeping (t.icbs ip))
          (AtMost-le a n (count a t + one a ip) (sleep fuel clock has_timer ip t) h sleeps)
          (omega (arith, h, count-put a engine ip t))))

count-imago_timer :
    (a fuel : ℕ) (clock : ℕ → ℕ) (has_timer : Bool) (s : System)
    → AtMost a (count a s) (imago_timer_step fuel clock has_timer s)
unfolding imago_timer_step first_icb time_icb
count-imago_timer a fuel clock has_timer s =
    let P : List ℕ → Type 0 =
      λ xs. AtMost a (count a s) (time_icb fuel clock has_timer s (first_icb timer s xs)) in
    elim (List-cases (queue timer s)) [
      | inl e ↦ subst P (sym e) (
          if_intro (λ (u : System). count a u ≤ count a s) s.mlvm_stop
            (omega (arith, count-timer_flush a s)) (omega arith))
      | inr (ip, (ips, e)) ↦ subst P (sym e) (
          count-time_icb a (count a s) fuel clock has_timer s (got timer ips s) ip
            (omega (arith, count-got a timer s ip ips e)))
    ]

-- A step of the system: a call of a thread's function, whatever `engine`, `mmanager` and the clock
-- do; an imago that is in no queue is put in one by another thread; another thread takes one.
pub data Step : System → System → Type 0 where
  scheduled : (s : System) (run : Icb → Icb) → Step s (imago_scheduler run s).1
  managed : (s : System) (mmanager : Icb → ℕ × Icb) → Step s (imago_memory mmanager s).1
  timed :
      (s t : System) (fuel : ℕ) (clock : ℕ → ℕ) (has_timer : Bool) (d : Option ℕ)
      → imago_timer_step fuel clock has_timer s ≡ some (t, d)
      → Step s t
  recalled :
      (s t : System) (fuel : ℕ) (clock : ℕ → ℕ) (has_timer : Bool) (d : Option ℕ)
      → timer_recall fuel clock has_timer s ≡ some (t, d)
      → Step s t
  put : (s : System) (n : Name) (ip : ℕ) → count ip s ≡ 0 → Step s (icb_put n ip s)
  took :
      (s : System) (n : Name) (ip : ℕ) (ips : List ℕ) → queue n s ≡ ip ∷ ips → Step s (got n ips s)
  changed : (s : System) (ip : ℕ) (v : Icb) → Step s (set_icb ip v s)

pub data Reach (s : System) : System → Type 0 where
  here : Reach s s
  next : {t u : System} → Reach s t → Step t u → Reach s u

abbrev pub IsOnce : System → Type 0
IsOnce s = (a : ℕ) → count a s ≤ 1

AllOf-some : {A : Type 0} (P : A → Type 0) (o : Option A) (x : A) → o ≡ some x → AllOf P o → P x
AllOf-some P o x e h = subst (AllOf P) e h

one_le : (a b : ℕ) → one a b ≤ 1
one_le a b = ground (arith)

count-put_new : (a ip : ℕ) (s : System) → count ip s ≡ 0 → count a s ≤ 1 → count a s + one a ip ≤ 1
count-put_new a ip s z h = elim (Bool-cases (a == ip)) [
  | inl e ↦
      let c : count a s ≡ 0 = subst (λ z. count z s ≡ 0) (sym (==→eq a ip e)) z in
      omega (arith, c, one_le a ip)
  | inr e ↦ rw e (omega (arith, h))
]

Step-IsOnce : {s t : System} → Step s t → IsOnce s → IsOnce t
unfolding timer_recall
Step-IsOnce (scheduled s run) h a = omega (arith, h a, count-imago_scheduler a run s)
Step-IsOnce (managed s mmanager) h a = omega (arith, h a, count-imago_memory_le a mmanager s)
Step-IsOnce (timed s t fuel clock has_timer d e) h a =
    let P : System × Option ℕ → Type 0 = λ r. count a r.0 ≤ count a s in
    omega (
      arith,
      h a,
      AllOf-some P (imago_timer_step fuel clock has_timer s) (t, d) e
          (count-imago_timer a fuel clock has_timer s),
    )
Step-IsOnce (recalled s t fuel clock has_timer d e) h a =
    let P : System × Option ℕ → Type 0 = λ r. count a r.0 ≡ count a s in
    omega (
      arith,
      h a,
      AllOf-some P (timer_recall fuel clock has_timer s) (t, d) e
          (count-set_wakeup a (count a s) has_timer (scan fuel clock s)
            (count-scan a fuel clock s)),
    )
Step-IsOnce (put s n ip z) h a = omega (arith, count-put a n ip s, count-put_new a ip s z (h a))
Step-IsOnce (took s n ip ips e) h a = omega (arith, h a, count-got a n s ip ips e)
Step-IsOnce (changed s ip v) h a = h a

-- However the threads run, by steps as above, no imago stands twice in the queues where none did at
-- the start.
pub Reach-IsOnce : {s t : System} → IsOnce s → Reach s t → IsOnce t
Reach-IsOnce h here = h
Reach-IsOnce h (next r st) = Step-IsOnce st (Reach-IsOnce h r)
