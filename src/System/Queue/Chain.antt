-- ===== src/System/Queue/Chain.antt =====
-- Lists of distinct records that a chain of `next` fields leads through.
use mlvm.Base.{
  ℕ, ◌≡◌, ◌≢◌, refl, sym, ap, Bool, true, false, ◌||◌, List, [], ◌∷◌, ◌++◌, ◌==◌, if◌then◌else◌,
  update, arith, if_intro, ne→==,
}
use mlvm.System.Queue.{null, Nexts}

abbrev pub has : ℕ → List ℕ → Bool
has a [] = false
has a (x ∷ xs) = (a == x) || has a xs

-- The last of a record and the list behind it.
abbrev pub last : ℕ → List ℕ → ℕ
last x [] = x
last x (y ∷ ys) = last y ys

-- The list without the first occurrence of a record.
abbrev pub remove : ℕ → List ℕ → List ℕ
remove a [] = []
remove a (x ∷ xs) = if a == x then xs else x ∷ remove a xs

-- From `p` the `next` fields lead through the distinct records of the list to NULL.
abbrev pub Chain : Nexts → ℕ → List ℕ → Type 0
Chain nexts p [] = p ≡ null
Chain nexts p (x ∷ xs) = (p ≡ x) × ((x ≢ null) × ((has x xs ≡ false) × Chain nexts (nexts x) xs))

pub has-cons : (a x : ℕ) (xs : List ℕ) → has a (x ∷ xs) ≡ false → (a ≢ x) × (has a xs ≡ false)
has-cons a x xs h = (ground (arith), ground (arith))

pub has-append :
    (a : ℕ) (xs ys : List ℕ) → has a xs ≡ false → has a ys ≡ false → has a (xs ++ ys) ≡ false
has-append a [] ys h g = g
has-append a (x ∷ xs) ys h g = ground (arith, has-append a xs ys)

pub has-last : (x : ℕ) (xs : List ℕ) → has (last x xs) (x ∷ xs) ≡ true
has-last x [] = ground (arith)
has-last x (y ∷ ys) = ground (arith, has-last y ys)

pub has-ne : (a b : ℕ) (xs : List ℕ) → has a xs ≡ false → has b xs ≡ true → a ≢ b
has-ne a b xs h g e = ground (arith, ap (λ c. has c xs) e)

pub update_ne : (nexts : Nexts) (a v x : ℕ) → x ≢ a → update nexts a v x ≡ nexts x
update_ne nexts a v x n = ground (arith)

pub update_self : (nexts : Nexts) (a v : ℕ) → update nexts a v a ≡ v
update_self nexts a v = ground (arith)

-- A write to a record that is not in the list does not show.
pub Chain-update :
    (nexts : Nexts) (a v p : ℕ) (xs : List ℕ)
    → Chain nexts p xs
    → has a xs ≡ false
    → Chain (update nexts a v) p xs
Chain-update nexts a v p [] c h = c
Chain-update nexts a v p (x ∷ xs) (e, (n, (d, c))) h =
    let (ne, out) = has-cons a x xs h in
    (
      e,
      (
        n,
        (
          d,
          rw (update_ne nexts a v x (λ s. ne (sym s))) (Chain-update nexts a v (nexts x) xs c out),
        ),
      ),
    )

-- A new record behind the last one.
pub Chain-snoc :
    (nexts : Nexts) (a p x : ℕ) (xs : List ℕ)
    → Chain nexts p (x ∷ xs)
    → a ≢ null
    → has a (x ∷ xs) ≡ false
    → Chain (update (update nexts a null) (last x xs) a) p ((x ∷ xs) ++ (a ∷ []))
Chain-snoc nexts a p x [] (e, (n, (d, c))) z h =
    let (ne, out) = has-cons a x [] h in
    (
      e,
      (
        n,
        (
          ground (arith),
          (
            update_self (update nexts a null) x a,
            (z, (refl, rw (update_ne (update nexts a null) x a a ne) (update_self nexts a null))),
          ),
        ),
      ),
    )
Chain-snoc nexts a p x (y ∷ ys) (e, (n, (d, c))) z h =
    let (ne, out) = has-cons a x (y ∷ ys) h in
    (
      e,
      (
        n,
        (
          has-append x (y ∷ ys) (a ∷ []) d (ground (arith)),
          rw
              (
                update_ne (update nexts a null) (last y ys) a x
                    (has-ne x (last y ys) (y ∷ ys) d (has-last y ys)),
                update_ne nexts a null x (λ s. ne (sym s)),
              )
              (Chain-snoc nexts a (nexts x) y ys c z out),
        ),
      ),
    )

pub has-remove : (a b : ℕ) (xs : List ℕ) → has a xs ≡ false → has a (remove b xs) ≡ false
has-remove a b [] h = refl
has-remove a b (x ∷ xs) h =
    let (n, out) = has-cons a x xs h in
    if_intro (λ l. has a l ≡ false) (b == x) out (rw (ne→== a x n) (has-remove a b xs out))

-- A new record in front.
pub Chain-push :
    (nexts : Nexts) (a p : ℕ) (xs : List ℕ)
    → Chain nexts p xs
    → a ≢ null
    → has a xs ≡ false
    → Chain (update nexts a p) a (a ∷ xs)
Chain-push nexts a p xs c n out =
    (refl, (n, (out, rw (update_self nexts a p) (Chain-update nexts a p p xs c out))))

pub last-append : (x a : ℕ) (xs : List ℕ) → last x (xs ++ (a ∷ [])) ≡ a
last-append x a [] = refl
last-append x a (y ∷ ys) = last-append y a ys

pub last_ne : (nexts : Nexts) (p x : ℕ) (xs : List ℕ) → Chain nexts p (x ∷ xs) → last x xs ≢ null
last_ne nexts p x [] (e, (n, c)) = n
last_ne nexts p x (y ∷ ys) (e, (n, (d, c))) = last_ne nexts (nexts x) y ys c
