-- ===== src/Text/Trim/Edges.antt =====
-- What `trim` removes and what it keeps (src/trim.c).
use tachyon.Prelude.{
  ℕ, zero, suc, ◌+◌, ◌-◌, ◌≤◌, ◌<◌, ◌≡◌, refl, ap, ◌∙◌, ◌⊎◌, inl, inr, true, false, [], ◌∷◌, ◌++◌,
  arith, ◌==◌, if◌then◌else◌, eqb→eq, Bool-cases, length, get_or, take, drop, length-take, All,
}
use tachyon.Text.{Text, strlen, isspace}
use tachyon.Text.Compare.{strlen-length}
use tachyon.Text.Trim.{skip_spaces, ltrim, last_index, rtrim, trim}

abbrev pub AllSpace : Text → Type 0
AllSpace = All λ c. isspace c ≡ true

-- Neither the first nor the last character is white space.
abbrev pub IsTrimmed : Text → Type 0
IsTrimmed s =
    (s ≡ []) ⊎ ((isspace (get_or s 0 0) ≡ false) × (isspace (get_or s (length s - 1) 0) ≡ false))

append_take-drop : (n : ℕ) (s : Text) → s ≡ take n s ++ drop n s
append_take-drop zero s = refl
append_take-drop (suc n) [] = refl
append_take-drop (suc n) (c ∷ s) = ap (◌∷◌ c) (append_take-drop n s)

take-length : (s : Text) → take (length s) s ≡ s
take-length [] = refl
take-length (c ∷ s) = ap (◌∷◌ c) (take-length s)

-- The loop with its counter at the length: the counter stays the length of the rest, and the rest
-- begins with no white space.
skip_spaces_lem :
    (s : Text) (n : ℕ)
    → n ≡ length s
    → ((skip_spaces s n).1 ≡ length (skip_spaces s n).0)
      × (length (skip_spaces s n).0 ≤ length s)
      × (isspace (get_or (skip_spaces s n).0 0 0) ≡ false)
unfolding skip_spaces
skip_spaces_lem [] n e = (e, omega arith, unfold isspace in refl)
skip_spaces_lem (c ∷ s) n e = ground (arith, skip_spaces_lem s (n - 1))

ltrim-skip_spaces : (s : Text) → ltrim s ≡ (skip_spaces s (strlen s)).0
unfolding ltrim
ltrim-skip_spaces [] = refl
ltrim-skip_spaces (c ∷ s) = ground (
  arith,
  skip_spaces_lem s (suc (length s) - 1) (omega arith),
  take-length (skip_spaces s (suc (length s) - 1)).0,
  strlen-length s,
)

-- The white space that `ltrim` drops.
leading : Text → Text
leading [] = []
leading (c ∷ s) = if isspace c then c ∷ leading s else []

leading-AllSpace : (s : Text) → AllSpace (leading s)
unfolding leading
leading-AllSpace [] = tt
leading-AllSpace (c ∷ s) = ground (arith, leading-AllSpace s)

leading-skip_spaces : (s : Text) (n : ℕ) → s ≡ leading s ++ (skip_spaces s n).0
unfolding leading skip_spaces
leading-skip_spaces [] n = refl
leading-skip_spaces (c ∷ s) n = ground (arith, leading-skip_spaces s (n - 1))

-- What `last_index` passes is white space, and it stops at 0 or at another character.
last_index_lem :
    (s : Text) (i : ℕ)
    → (last_index s i ≤ i)
      × ((j : ℕ) → last_index s i < j → j ≤ i → isspace (get_or s j 0) ≡ true)
      × ((last_index s i ≡ 0) ⊎ (isspace (get_or s (last_index s i) 0) ≡ false))
unfolding last_index
last_index_lem s zero = (omega arith, λ j p q. absurd (omega arith), inl refl)
last_index_lem s (suc i) = elim (Bool-cases (isspace (get_or s (suc i) 0))) [
  | inl blank ↦
      let ih = last_index_lem s i in
      rw blank (
        omega (arith, ih.0),
        λ j p q. elim (Bool-cases (j == suc i)) [
          | inl e ↦ rw (eqb→eq j (suc i) e) blank
          | inr e ↦ ih.1 j p (ground arith)
        ],
        ih.2,
      )
  | inr stop ↦ rw stop (omega arith, λ j p q. absurd (omega arith), inr stop)
]

AllSpace-drop :
    (n : ℕ) (s : Text)
    → ((j : ℕ) → n ≤ j → j < length s → isspace (get_or s j 0) ≡ true)
    → AllSpace (drop n s)
AllSpace-drop zero [] h = tt
AllSpace-drop zero (c ∷ s) h = (
  h 0 (omega arith) (omega arith),
  AllSpace-drop zero s λ j p q. h (suc j) (omega arith) (omega arith),
)
AllSpace-drop (suc n) [] h = tt
AllSpace-drop (suc n) (c ∷ s) h = AllSpace-drop n s λ j p q. h (suc j) (omega arith) (omega arith)

get_or-take : (n i : ℕ) (s : Text) → i < n → get_or (take n s) i 0 ≡ get_or s i 0
get_or-take zero i s h = absurd (omega arith)
get_or-take (suc n) i [] h = refl
get_or-take (suc n) zero (c ∷ s) h = refl
get_or-take (suc n) (suc i) (c ∷ s) h = get_or-take n i s (omega arith)

-- The length to which `rtrim` cuts the text.
abbrev kept : Text → ℕ
kept s = let cur = last_index s (length s - 1) in if isspace (get_or s cur 0) then cur else cur + 1

rtrim-take : (c : ℕ) (s : Text) → rtrim (c ∷ s) ≡ take (kept (c ∷ s)) (c ∷ s)
unfolding rtrim
rtrim-take c s = rw strlen-length

-- `rtrim` drops white space only, and what it leaves is empty or ends in another character.
kept_lem :
    (s : Text)
    → 0 < length s
    → ((j : ℕ) → kept s ≤ j → j < length s → isspace (get_or s j 0) ≡ true)
      × (kept s ≤ length s)
      × ((kept s ≡ 0) ⊎ ((0 < kept s) × (isspace (get_or s (kept s - 1) 0) ≡ false)))
kept_lem s h =
    let L = last_index_lem s (length s - 1) in
    let cur = last_index s (length s - 1) in
    elim (Bool-cases (isspace (get_or s cur 0))) [
      | inl blank ↦ rw blank (
        λ j p q. elim (Bool-cases (j == cur)) [
          | inl e ↦ rw (eqb→eq j cur e) blank
          | inr e ↦ L.1 j (ground arith) (omega arith)
        ],
        omega (arith, L.0),
        ground (arith, L.2),
      )
      | inr stop ↦ rw stop (
        λ j p q. L.1 j (omega arith) (omega arith),
        omega (arith, L.0),
        inr (omega arith, ground (arith, add_sub cur)),
      )
    ]
  where
    add_sub : (n : ℕ) → n + 1 - 1 ≡ n
    add_sub n = omega arith

take-IsTrimmed :
    (s : Text) (k : ℕ)
    → isspace (get_or s 0 0) ≡ false
    → k ≤ length s
    → (k ≡ 0) ⊎ ((0 < k) × (isspace (get_or s (k - 1) 0) ≡ false))
    → IsTrimmed (take k s)
take-IsTrimmed s k head h (inl e) = rw e (inl refl)
take-IsTrimmed s k head h (inr (p, end)) = inr (
  rw (get_or-take k 0 s p) head,
  rw (length-take k s h, get_or-take k (k - 1) s (omega arith)) end,
)

rtrim-IsTrimmed :
    (s : Text)
    → isspace (get_or s 0 0) ≡ false
    → IsTrimmed (rtrim s) × ((post : Text) × (s ≡ rtrim s ++ post) × AllSpace post)
rtrim-IsTrimmed [] head = (inl (unfold rtrim in refl), ([], unfold rtrim in refl, tt))
rtrim-IsTrimmed (c ∷ s) head =
    let K = kept_lem (c ∷ s) (omega arith) in
    rw (rtrim-take c s) (
      take-IsTrimmed (c ∷ s) (kept (c ∷ s)) head K.1 K.2,
      (
        drop (kept (c ∷ s)) (c ∷ s),
        append_take-drop (kept (c ∷ s)) (c ∷ s),
        AllSpace-drop (kept (c ∷ s)) (c ∷ s) K.0,
      ),
    )

-- Every text is white space, the trimmed text, and white space; the trimmed text is empty, or its
-- first and last characters are not white space.
pub trim-IsTrimmed :
    (s : Text)
    → IsTrimmed (trim s)
      × ((pre : Text) × (post : Text) × (s ≡ pre ++ (trim s ++ post))
          × AllSpace pre
          × AllSpace post)
unfolding trim
trim-IsTrimmed s =
    let L = skip_spaces_lem s (strlen s) (strlen-length s) in
    let head : isspace (get_or (ltrim s) 0 0) ≡ false = rw (ltrim-skip_spaces s) L.2 in
    let (done, (post, e, blank)) = rtrim-IsTrimmed (ltrim s) head in
    let whole : s ≡ leading s ++ ltrim s =
      rw (ltrim-skip_spaces s) (leading-skip_spaces s (strlen s)) in
    (done, (leading s, post, whole ∙ ap (◌++◌ (leading s)) e, leading-AllSpace s, blank))
