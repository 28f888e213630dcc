-- ===== src/Transport/Queue/Fifo.antt =====
-- The queues of transport/queue.c stand for lists.
use mlvm.Base.{
  ℕ, ◌≡◌, ◌≢◌, refl, sym, ap, subst, fun_ext, ◌∙◌, false, List, [], ◌∷◌, ◌++◌, update, ne→==, arith,
}
use mlvm.System.Queue.{null, Nexts}
use mlvm.System.Queue.Chain.{
  has, last, Chain, has-ne, has-last, update_self, Chain-snoc, Chain-push, last-append, last_ne,
}
use mlvm.Transport.Queue.{LinkHead, insert_last, insert_first, remove_first}

-- The queue holds the nodes of the list, in order; an empty one has neither a first nor a last.
abbrev pub Holds : Nexts → LinkHead → List ℕ → Type 0
Holds nexts h [] = (h.first ≡ null) × (h.last ≡ null)
Holds nexts h (x ∷ xs) = Chain nexts h.first (x ∷ xs) × (h.last ≡ last x xs)

update_comm :
    (f : Nexts) (a b v w : ℕ) → a ≢ b → update (update f a v) b w ≡ update (update f b w) a v
update_comm f a b v w n = fun_ext λ j. ground (arith, n)

insert_last-run :
    (nexts : Nexts) (h : LinkHead) (n : ℕ)
    → h.last ≢ null
    → insert_last h n nexts ≡ (record h { last = n }, update (update nexts h.last n) n null)
unfolding insert_last
insert_last-run nexts h n l = rw (ne→== h.last null l) refl

insert_last-Holds :
    (nexts : Nexts) (h : LinkHead) (n : ℕ) (xs : List ℕ)
    → Holds nexts h xs
    → n ≢ null
    → has n xs ≡ false
    → Holds (insert_last h n nexts).1 (insert_last h n nexts).0 (xs ++ (n ∷ []))
unfolding insert_last
insert_last-Holds nexts h n [] (f, l) z out =
    rw l ((refl, (z, (refl, update_self nexts n null))), refl)
insert_last-Holds nexts h n (x ∷ xs) (c, l) z out =
    let k = Chain-snoc nexts n h.first x xs c z out in
    let ne = has-ne n (last x xs) (x ∷ xs) out (has-last x xs) in
    let same : update (update nexts h.last n) n null ≡ update (update nexts n null) (last x xs) n =
      ap (λ t. update (update nexts t n) n null) l
      ∙ update_comm nexts (last x xs) n n null (λ e. ne (sym e)) in
    subst (λ r. Holds r.1 r.0 ((x ∷ xs) ++ (n ∷ [])))
      (sym (insert_last-run nexts h n (λ e. last_ne nexts h.first x xs c (sym l ∙ e))))
      (subst (λ f. Chain f h.first ((x ∷ xs) ++ (n ∷ []))) (sym same) k, sym (last-append x n xs))

insert_first-run :
    (nexts : Nexts) (h : LinkHead) (n : ℕ)
    → h.first ≢ null
    → insert_first h n nexts ≡ (record h { first = n }, update nexts n h.first)
unfolding insert_first
insert_first-run nexts h n l = rw (ne→== h.first null l) refl

insert_first-Holds :
    (nexts : Nexts) (h : LinkHead) (n : ℕ) (xs : List ℕ)
    → Holds nexts h xs
    → n ≢ null
    → has n xs ≡ false
    → Holds (insert_first h n nexts).1 (insert_first h n nexts).0 (n ∷ xs)
unfolding insert_first
insert_first-Holds nexts h n [] (f, l) z out =
    rw f ((refl, (z, (refl, update_self nexts n null))), refl)
insert_first-Holds nexts h n (x ∷ xs) (c, l) z out =
    subst (λ r. Holds r.1 r.0 (n ∷ x ∷ xs))
      (sym (insert_first-run nexts h n (λ e. c.1.0 (sym c.0 ∙ e))))
      (Chain-push nexts n h.first (x ∷ xs) c z out, l)

-- The first of a list, or NULL, and the others.
abbrev pub first_of : List ℕ → ℕ
first_of [] = null
first_of (x ∷ xs) = x

abbrev pub rest_of : List ℕ → List ℕ
rest_of [] = []
rest_of (x ∷ xs) = xs

remove_first-Holds :
    (nexts : Nexts) (h : LinkHead) (xs : List ℕ)
    → Holds nexts h xs
    → ((remove_first h nexts).0 ≡ first_of xs) × Holds nexts (remove_first h nexts).1 (rest_of xs)
unfolding remove_first
remove_first-Holds nexts h [] (f, l) = rw f (refl, (refl, refl))
remove_first-Holds nexts h (x ∷ []) ((e, (z, (d, c))), l) =
    rw (e, ne→== x null z, c) (refl, (refl, refl))
remove_first-Holds nexts h (x ∷ y ∷ ys) ((e, (z, (d, c))), l) =
    rw (e, ne→== x null z, c.0, ne→== y null c.1.0) (refl, ((refl, c.1), l))

pub data Call : Type 0 where
  enqueue push : ℕ → Call
  dequeue : Call

-- A call on the nodes: what it returns, NULL for the others, and the queue.
unfoldable pub perform : Call → LinkHead × Nexts → ℕ × (LinkHead × Nexts)
unfolding insert_last insert_first remove_first
perform (enqueue n) (h, nexts) = (null, insert_last h n nexts)
perform (push n) (h, nexts) = (null, insert_first h n nexts)
perform dequeue (h, nexts) = ((remove_first h nexts).0, ((remove_first h nexts).1, nexts))

-- The nodes that the calls return, and the queue after them.
unfoldable pub performs : List Call → LinkHead × Nexts → List ℕ × (LinkHead × Nexts)
unfolding perform
performs [] s = ([], s)
performs (c ∷ cs) s = let r = perform c s in let rs = performs cs r.1 in (r.0 ∷ rs.0, rs.1)

-- The same on the list.
unfoldable pub meant : Call → List ℕ → ℕ × List ℕ
meant (enqueue n) xs = (null, xs ++ (n ∷ []))
meant (push n) xs = (null, n ∷ xs)
meant dequeue xs = (first_of xs, rest_of xs)

unfoldable pub all_meant : List Call → List ℕ → List ℕ × List ℕ
unfolding meant
all_meant [] xs = ([], xs)
all_meant (c ∷ cs) xs = let r = meant c xs in let rs = all_meant cs r.1 in (r.0 ∷ rs.0, rs.1)

-- A node that is put in is not NULL and not in the queue.
abbrev pub MayCall : Call → List ℕ → Type 0
MayCall (enqueue n) xs = (n ≢ null) × (has n xs ≡ false)
MayCall (push n) xs = (n ≢ null) × (has n xs ≡ false)
MayCall dequeue xs = Unit {0}

abbrev pub MayCalls : List Call → List ℕ → Type 0
MayCalls [] xs = Unit {0}
MayCalls (c ∷ cs) xs = MayCall c xs × MayCalls cs (meant c xs).1

perform-Holds :
    (c : Call) (h : LinkHead) (nexts : Nexts) (xs : List ℕ)
    → Holds nexts h xs
    → MayCall c xs
    → ((perform c (h, nexts)).0 ≡ (meant c xs).0)
      × Holds (perform c (h, nexts)).1.1 (perform c (h, nexts)).1.0 (meant c xs).1
unfolding perform meant
perform-Holds (enqueue n) h nexts xs k (z, out) = (refl, insert_last-Holds nexts h n xs k z out)
perform-Holds (push n) h nexts xs k (z, out) = (refl, insert_first-Holds nexts h n xs k z out)
perform-Holds dequeue h nexts xs k m = remove_first-Holds nexts h xs k

-- However enqueue, push and dequeue are called on a queue, they return the nodes that the same
-- operations on a list give, NULL where it is empty, and the queue holds the list that is left,
-- where each node that is put in is not NULL and not in the queue.
pub performs-fifo :
    (cs : List Call) (h : LinkHead) (nexts : Nexts) (xs : List ℕ)
    → Holds nexts h xs
    → MayCalls cs xs
    → ((performs cs (h, nexts)).0 ≡ (all_meant cs xs).0)
      × Holds (performs cs (h, nexts)).1.1 (performs cs (h, nexts)).1.0 (all_meant cs xs).1
unfolding performs all_meant
performs-fifo [] h nexts xs k m = (refl, k)
performs-fifo (c ∷ cs) h nexts xs k (m, ms) =
    let (e, k') = perform-Holds c h nexts xs k m in
    let s = (perform c (h, nexts)).1 in
    let (es, k'') = performs-fifo cs s.0 s.1 (meant c xs).1 k' ms in (rw (e, es) refl, k'')
