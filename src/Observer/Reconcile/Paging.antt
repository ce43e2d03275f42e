-- ===== src/Observer/Reconcile/Paging.antt =====
-- The pages are all fetched, and reach back to the checkpoint.
use Prim.Native.Nat.{Ordering}
use Prim.Native.String.{String, compare}
use mathlib.Core.List.{append_assoc}
use text.Mathlib.Text.{is_eq}
use text.Mathlib.TextEquality.{path_by_compare}
use text.Mathlib.TextPositions.{eq_refl}
use iron_vault.Observer.Fallible.{done}
use iron_vault.Observer.Reconcile.{
  Rpc, SignatureInfo, fetch_signatures, has_signature, is_none, last_signature, reaches, succeeded,
}
use iron_vault.Observer.Store.{eq_text}
use iron_vault.Prelude.{
  Bool-cases, List, Option, [], ap, arith, drop, false, if◌then◌else◌, inl, inr, length,
  length-drop, length-take, ltb, none, refl, some, subst, suc, sym, take, take-drop, true, zero, ℕ,
  ◌++◌, ◌+◌, ◌<◌, ◌||◌, ◌∙◌, ◌∷◌, ◌≡◌, ◌≤◌, ◌⊎◌,
}

-- The entries that are older than the one with the signature.
abbrev pub older : String → List SignatureInfo → List SignatureInfo
older signature [] = []
older signature (entry ∷ rest) =
    if eq_text entry.signature signature then rest else older signature rest

abbrev pub IsDistinct : List SignatureInfo → Type 0
IsDistinct [] = Unit
IsDistinct (entry ∷ rest) = (has_signature entry.signature rest ≡ false) × IsDistinct rest

-- A node with this history, the newest entry first: it answers with so many of the entries that
-- are older than `before`.
pub record IsHistory (rpc : Rpc) (history : List SignatureInfo) : Type 0 where
  pub first_page : (limit : ℕ) → rpc.get_signatures limit none ≡ done (take limit history)
  pub next_page :
      (limit : ℕ) (signature : String)
      → rpc.get_signatures limit (some signature) ≡ done (take limit (older signature history))
  pub distinct : IsDistinct history

text_of_ordering : (s t : String) (o : Ordering) → compare s t ≡ o → is_eq o ≡ true → s ≡ t
text_of_ordering s t Ordering.lt e h = absurd (ground arith)
text_of_ordering s t Ordering.eq e h = path_by_compare s t e
text_of_ordering s t Ordering.gt e h = absurd (ground arith)

eq_text_sound : (s t : String) → eq_text s t ≡ true → s ≡ t
eq_text_sound s t h = text_of_ordering s t (compare s t) refl h

has_signature-append :
    (l : String) (xs ys : List SignatureInfo)
    → has_signature l (xs ++ ys) ≡ has_signature l xs || has_signature l ys
has_signature-append l [] ys = refl
has_signature-append l (x ∷ xs) ys = ground (arith, has_signature-append l xs ys)

succeeded-append :
    (xs ys : List SignatureInfo) → succeeded (xs ++ ys) ≡ succeeded xs ++ succeeded ys
succeeded-append [] ys = refl
succeeded-append (x ∷ xs) ys = elim (Bool-cases (is_none x.err)) [
  | inl fine ↦ rw fine (ap (λ rest. x ∷ rest) (succeeded-append xs ys))
  | inr bad ↦ rw bad (succeeded-append xs ys)
]

last-has_signature :
    (l : String) (xs : List SignatureInfo) → last_signature xs ≡ some l → has_signature l xs ≡ true
last-has_signature l [] h = cc
last-has_signature l (x ∷ []) h =
    let same : x.signature ≡ l = cc in rw same (ground (arith, eq_refl l))
last-has_signature l (x ∷ y ∷ xs) h = ground (arith, last-has_signature l (y ∷ xs) h)

-- An entry that is newer than the one looked for.
older-skip :
    (l : String) (x : SignatureInfo) (xs : List SignatureInfo)
    → has_signature x.signature xs ≡ false
    → has_signature l xs ≡ true
    → older l (x ∷ xs) ≡ older l xs
older-skip l x xs fresh held = elim (Bool-cases (eq_text x.signature l)) [
  | inl same ↦
      let held' =
        subst (λ t. has_signature t xs ≡ true) (sym (eq_text_sound x.signature l same)) held in
      absurd (ground arith)
  | inr other ↦ rw other refl
]

older-page :
    (l : String) (page rest : List SignatureInfo)
    → last_signature page ≡ some l
    → IsDistinct (page ++ rest)
    → older l (page ++ rest) ≡ rest
older-page l [] rest h distinct = cc
older-page l (x ∷ []) rest h distinct =
    let same : x.signature ≡ l = cc in rw same (rw (eq_refl l) refl)
older-page l (x ∷ y ∷ page) rest h (fresh, distinct) =
    let held = last-has_signature l (y ∷ page) h in
    older-skip l x (y ∷ page ++ rest) fresh
      (rw (has_signature-append l (y ∷ page) rest) (rw held refl))
    ∙ older-page l (y ∷ page) rest h distinct

older-last :
    (l : String) (seen page rest : List SignatureInfo)
    → last_signature page ≡ some l
    → IsDistinct (seen ++ (page ++ rest))
    → older l (seen ++ (page ++ rest)) ≡ rest
older-last l [] page rest h distinct = older-page l page rest h distinct
older-last l (x ∷ seen) page rest h (fresh, distinct) =
    let held = last-has_signature l page h in
    older-skip l x (seen ++ (page ++ rest)) fresh (
      rw (has_signature-append l seen (page ++ rest))
        (rw (has_signature-append l page rest) (rw held (ground arith))))
    ∙ older-last l seen page rest h distinct

short_page : (n : ℕ) (xs : List SignatureInfo) → ltb (length (take n xs)) n ≡ true → take n xs ≡ xs
short_page zero xs h = absurd (ground arith)
short_page (suc n) [] h = refl
short_page (suc n) (x ∷ xs) h = ap (λ rest. x ∷ rest) (short_page n xs (ground arith))

full_page : (n : ℕ) (xs : List SignatureInfo) → ltb (length (take n xs)) n ≡ false → n ≤ length xs
full_page zero xs h = omega arith
full_page (suc n) [] h = absurd (ground arith)
full_page (suc n) (x ∷ xs) h = omega (arith, full_page n xs (ground arith))

take_none : (n : ℕ) → take {A = SignatureInfo} n [] ≡ []
take_none zero = refl
take_none (suc n) = refl

take-add : (m n : ℕ) (xs : List SignatureInfo) → take (m + n) xs ≡ take m xs ++ take n (drop m xs)
take-add zero n xs = let same : 0 + n ≡ n = omega arith in rw same refl
take-add (suc m) n [] =
    let same : suc m + n ≡ suc (m + n) = omega arith in rw same (sym (take_none n))
take-add (suc m) n (x ∷ xs) =
    let same : suc m + n ≡ suc (m + n) = omega arith in
    rw same (ap (λ rest. x ∷ rest) (take-add m n xs))

some_last : (xs : List SignatureInfo) → 0 < length xs → (l : String) × (last_signature xs ≡ some l)
some_last [] h = absurd (omega arith)
some_last (x ∷ []) h = (x.signature, refl)
some_last (x ∷ y ∷ xs) h = some_last (y ∷ xs) (omega arith)

reaches-append :
    (checkpoint : Option String) (xs ys : List SignatureInfo)
    → reaches checkpoint ys ≡ true
    → reaches checkpoint (xs ++ ys) ≡ true
reaches-append none xs ys h = h
reaches-append (some l) xs ys h = ground (arith, has_signature-append l xs ys)

-- A page, and what was found from the next one on.
covers-add :
    (m n : ℕ) (checkpoint : Option String) (xs : List SignatureInfo)
    → (reaches checkpoint (take n (drop m xs)) ≡ true) ⊎ (take n (drop m xs) ≡ drop m xs)
    → (reaches checkpoint (take (m + n) xs) ≡ true) ⊎ (take (m + n) xs ≡ xs)
covers-add m n checkpoint xs (inl reached) =
    inl (rw (take-add m n xs) (reaches-append checkpoint (take m xs) _ reached))
covers-add m n checkpoint xs (inr all) =
    inr (take-add m n xs ∙ ap (λ rest. take m xs ++ rest) all ∙ take-drop m xs)

succeeded-take :
    (m n : ℕ) (xs : List SignatureInfo)
    → succeeded (take m xs) ++ succeeded (take n (drop m xs)) ≡ succeeded (take (m + n) xs)
succeeded-take m n xs = rw (take-add m n xs) (sym (succeeded-append (take m xs) _))

module _ (rpc : Rpc) (history : List SignatureInfo) (limit : ℕ) (checkpoint : Option String) where
  -- The pages that are left, from where the last one ended.
  fetch_rest :
      (fuel : ℕ) (seen rest : List SignatureInfo) (start : Option String)
      → IsHistory rpc history
      → 0 < limit
      → seen ++ rest ≡ history
      → rpc.get_signatures limit start ≡ done (take limit rest)
      → length rest < fuel
      → (n : ℕ) × (fetch_signatures rpc limit checkpoint fuel start
          ≡ some (done (succeeded (take n rest))))
        × ((reaches checkpoint (take n rest) ≡ true) ⊎ (take n rest ≡ rest))
  unfolding fetch_signatures
  fetch_rest zero seen rest start node some_limit split page enough = absurd (omega arith)
  fetch_rest (suc fuel) seen rest start node some_limit split page enough =
      elim (Bool-cases (reaches checkpoint (take limit rest))) [
        | inl reached ↦ (limit, rw page (rw reached refl), inl reached)
        | inr goes_on ↦ elim (Bool-cases (ltb (length (take limit rest)) limit)) [
          | inl short ↦
              (limit, rw page (rw goes_on (rw short refl)), inr (short_page limit rest short))
          | inr full ↦
              let within = full_page limit rest full in
              let (l, last) =
                some_last (take limit rest) (omega (arith, length-take limit rest within)) in
              let whole = ap (λ r. seen ++ r) (take-drop limit rest) ∙ split in
              let left =
                older-last l seen (take limit rest) (drop limit rest) last
                  (subst IsDistinct (sym whole) node.distinct) in
              let page' =
                node.next_page limit l
                ∙ ap (λ r. done (take limit r))
                    (subst (λ h. older l h ≡ drop limit rest) whole left) in
              let (n, found, covers) =
                fetch_rest fuel (seen ++ take limit rest) (drop limit rest) (some l) node some_limit
                  (append_assoc seen (take limit rest) (drop limit rest) ∙ whole) page'
                  (omega (arith, length-drop limit rest)) in
              (
                limit + n,
                rw page (
                    rw goes_on (
                      rw full (
                        rw last
                          (rw found (ap (λ r. some (done r)) (succeeded-take limit n rest)))))),
                covers-add limit n checkpoint rest covers,
              )
        ]
      ]

  -- Of the node with this history, the loop over the pages ends, within one round more than the
  -- history has entries, and finds the successful entries of the history or of a part from the
  -- newest entry back which holds the checkpoint.
  pub fetch_signatures-history :
      (fuel : ℕ)
      → IsHistory rpc history
      → 0 < limit
      → length history < fuel
      → (n : ℕ) × (fetch_signatures rpc limit checkpoint fuel none
          ≡ some (done (succeeded (take n history))))
        × ((reaches checkpoint (take n history) ≡ true) ⊎ (take n history ≡ history))
  fetch_signatures-history fuel node some_limit enough =
      fetch_rest fuel [] history none node some_limit refl (node.first_page limit) enough
