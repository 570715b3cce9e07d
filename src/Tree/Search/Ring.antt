-- ===== src/Tree/Search/Ring.antt =====
-- shar/core/tree.rs, `find_crdt`: the rounds of its loop, from any row.
use shario.Prelude.{
  ℕ, zero, suc, ◌+◌, ◌-◌, ◌≤◌, ◌<◌, Bool, true, false, Option, none, some, List, [], ◌∷◌, ltb, ◌&&◌,
  ◌||◌, ==_iff, leb, ◌==◌, if◌then◌else◌, Identity, same, same_iff, length, get_elem?, ◌≡◌, ◌≢◌,
  ◌⊎◌, inl, inr, refl, sym, ap, ◌∙◌, arith, Bool-cases,
}
use shario.Types.{Error, error_eq, Result, ok, err, generic, out_of_bounds}
use shario.Tree.File.{Projection, SharFile, root}
use shario.Tree.Search.{
  position, search_row, check_up, check_down, ring_search, search_from, find_crdt, up_exhausted,
  down_exhausted,
}

-- The column of `k` in a row, if that row exists and has it.
abbrev pub column_in : Projection → ℕ → Identity → Option ℕ
column_in proj row k = elim (get_elem? proj row) [ some line ↦ position k line | none ↦ none ]

-- `k` stands in row `r`, at column `c` first, and in no other row.
abbrev pub LocatedAt : Projection → Identity → ℕ → ℕ → Type 0
LocatedAt proj k r c = (i : ℕ) → column_in proj i k ≡ (if i == r then some c else none)

abbrev pub Absent : Projection → Identity → Type 0
Absent proj k = (i : ℕ) → column_in proj i k ≡ none

pub get_elem?-lt {ℓ} :
    {A : Type ℓ} (xs : List A) (i : ℕ) → i < length xs → (x : A) × (get_elem? xs i ≡ some x)
get_elem?-lt [] i h = elim h [ ]
get_elem?-lt (x ∷ xs) zero h = (x, refl)
get_elem?-lt (x ∷ xs) (suc i) h = get_elem?-lt xs i (omega arith)

pub lt-length {ℓ} :
    {A : Type ℓ} (xs : List A) (i : ℕ) {x : A} → get_elem? xs i ≡ some x → i < length xs
lt-length [] i h = cc
lt-length (_ ∷ xs) zero h = omega arith
lt-length (_ ∷ xs) (suc i) h = omega (arith, lt-length xs i h)

get_elem?-ge {ℓ} : {A : Type ℓ} (xs : List A) (i : ℕ) → length xs ≤ i → get_elem? xs i ≡ none
get_elem?-ge [] i h = refl
get_elem?-ge (x ∷ xs) zero h = absurd (omega arith)
get_elem?-ge (x ∷ xs) (suc i) h = get_elem?-ge xs i (omega arith)

module _ (proj : Projection) (k : Identity) where
  search_row-found : (i c : ℕ) → column_in proj i k ≡ some c → search_row proj i k ≡ ok (i, c)
  unfolding search_row
  search_row-found i c h = ground arith

  search_row-missing :
      (i : ℕ)
      → i < length proj
      → column_in proj i k ≡ none
      → search_row proj i k ≡ err (generic "not found on line")
  unfolding search_row
  search_row-missing i lt h = let (line, e) = get_elem?-lt proj i lt in ground arith

  -- A step towards the first row: the row is missing, or it is searched without success.
  check_up-missing :
      (n up : ℕ)
      → n < length proj
      → (up ≤ n → column_in proj (n - up) k ≡ none)
      → (e : Error) × (check_up proj k n up ≡ (err e, if ltb n up then up else up + 1))
        × (error_eq e up_exhausted ≡ ltb n up)
  unfolding check_up error_eq
  check_up-missing n up lt h = elim (Bool-cases (ltb n up)) [
    | inl done ↦ (up_exhausted, rw done, rw done)
    | inr more ↦ (
      generic "not found on line",
      rw (more, search_row-missing (n - up) (omega arith) (h (ground arith))),
      rw more,
    )
  ]

  check_down-missing :
      (n down : ℕ)
      → (n + down < length proj → column_in proj (n + down) k ≡ none)
      → (e : Error) × (check_down proj k n down
          ≡ (err e, if leb (length proj) (n + down) then down else down + 1))
        × (error_eq e down_exhausted ≡ leb (length proj) (n + down))
  unfolding check_down error_eq
  check_down-missing n down h = elim (Bool-cases (leb (length proj) (n + down))) [
    | inl done ↦ (down_exhausted, rw done, rw done)
    | inr more ↦ (
      generic "not found on line",
      rw (more, search_row-missing (n + down) (ground arith) (h (ground arith))),
      rw more,
    )
  ]

  check_up-found :
      (n up c : ℕ)
      → up ≤ n
      → column_in proj (n - up) k ≡ some c
      → check_up proj k n up ≡ (ok (n - up, c), up)
  unfolding check_up
  check_up-found n up c le h = ground (arith, search_row-found (n - up) c h)

  check_down-found :
      (n down c : ℕ)
      → n + down < length proj
      → column_in proj (n + down) k ≡ some c
      → check_down proj k n down ≡ (ok (n + down, c), down)
  unfolding check_down
  check_down-found n down c le h = ground (arith, search_row-found (n + down) c h)

  -- What the loop does after a round that finds nothing.
  ring_search-step :
      (fuel n up down : ℕ) (ud dd : Bool)
      → n < length proj
      → (up ≤ n → column_in proj (n - up) k ≡ none)
      → (n + down < length proj → column_in proj (n + down) k ≡ none)
      → (ud && dd) ≡ false
      → ring_search (suc fuel) proj k n up down ud dd
        ≡ ring_search fuel proj k n
            (if ltb n up then up else up + 1)
            (if leb (length proj) (n + down) then down else down + 1)
            (ud || ltb n up)
            (dd || leb (length proj) (n + down))
  unfolding ring_search
  ring_search-step fuel n up down ud dd lt hu hd more =
      let (e, p, q) = check_up-missing n up lt hu in
      let (e', p', q') = check_down-missing n down hd in rw (more, p, p', q, q')

  -- One side has not yet passed row `r`, and the fuel reaches it.
  abbrev Ahead : ℕ → ℕ → ℕ → ℕ → Bool → Bool → ℕ → Type 0
  Ahead fuel n up down ud dd r =
      ((r + up ≤ n) × (ud ≡ false) × (n < fuel + up + r))
      ⊎ ((n + down ≤ r) × (dd ≡ false) × (r < fuel + n + down))

  column_at : (r c i : ℕ) → LocatedAt proj k r c → i ≡ r → column_in proj i k ≡ some c
  column_at r c i at e = at i ∙ rw ((==_iff i r).1 e)

  column_elsewhere : (r c i : ℕ) → LocatedAt proj k r c → i ≢ r → column_in proj i k ≡ none
  column_elsewhere r c i at e = at i ∙ ground (arith)

  ring_search-located :
      (fuel n up down : ℕ) (ud dd : Bool) (r c : ℕ)
      → LocatedAt proj k r c
      → n < length proj
      → r < length proj
      → Ahead fuel n up down ud dd r
      → ring_search fuel proj k n up down ud dd ≡ ok (r, c)
  unfolding ring_search
  ring_search-located zero n up down ud dd r c at ln lr (inl h) = absurd (omega arith)
  ring_search-located zero n up down ud dd r c at ln lr (inr h) = absurd (omega arith)
  ring_search-located (suc fuel) n up down ud dd r c at ln lr ahead =
      elim (Bool-cases (n == up + r)) [
        | inl e ↦ up_hit (ground arith)
        | inr ne ↦ elim (Bool-cases (n + down == r)) [
          | inl e ↦ down_hit (ground arith) (ground arith)
          | inr ne' ↦
              rw
                (ring_search-step fuel n up down ud dd ln
                  (λ le. column_elsewhere r c (n - up) at (ground arith))
                  (λ lt. column_elsewhere r c (n + down) at (ground arith)) going)
                (ring_search-located fuel n (if ltb n up then up else up + 1)
                  (if leb (length proj) (n + down) then down else down + 1) (ud || ltb n up)
                  (dd || leb (length proj) (n + down)) r c at ln lr
                  (onward (ground arith) (ground arith)))
        ]
      ]
    where
      going : (ud && dd) ≡ false
      going = ground arith

      up_hit : n ≡ up + r → ring_search (suc fuel) proj k n up down ud dd ≡ ok (r, c)
      up_hit e =
          rw (going, check_up-found n up c (omega arith) (column_at r c (n - up) at (omega arith)))
            (ap {B = Result (ℕ × ℕ)} (λ i. ok (i, c)) (omega arith))

      down_hit :
          n + down ≡ r → n ≢ up + r → ring_search (suc fuel) proj k n up down ud dd ≡ ok (r, c)
      down_hit e ne =
          let (e', p, q) =
            check_up-missing n up ln (λ le. column_elsewhere r c (n - up) at (omega arith)) in
          rw (going, p, check_down-found n down c (omega arith) (column_at r c (n + down) at e))
            (ap {B = Result (ℕ × ℕ)} (λ i. ok (i, c)) e)

      onward :
          n ≢ up + r
          → n + down ≢ r
          → Ahead fuel n
              (if ltb n up then up else up + 1)
              (if leb (length proj) (n + down) then down else down + 1)
              (ud || ltb n up)
              (dd || leb (length proj) (n + down))
              r
      onward ne ne' = ground arith

  -- With enough fuel for both sides the loop ends without success where `k` is absent.
  ring_search-Absent :
      (fuel n up down : ℕ) (ud dd : Bool)
      → Absent proj k
      → n < length proj
      → ((ud ≡ true) ⊎ ((up ≤ n + 1) × (n + 2 < fuel + up)))
      → ((dd ≡ true) ⊎ ((n + down ≤ length proj) × (length proj + 1 < fuel + n + down)))
      → 0 < fuel
      → ring_search fuel proj k n up down ud dd ≡ err (out_of_bounds "parent cannot be found")
  unfolding ring_search
  ring_search-Absent zero n up down ud dd gone ln hu hd h = absurd (omega arith)
  ring_search-Absent (suc fuel) n up down ud dd gone ln hu hd h = elim (Bool-cases (ud && dd)) [
    | inl done ↦ rw done
    | inr more ↦
        rw
          (ring_search-step fuel n up down ud dd ln (λ _. gone (n - up)) (λ _. gone (n + down))
            more)
          (ring_search-Absent fuel n (if ltb n up then up else up + 1)
            (if leb (length proj) (n + down) then down else down + 1) (ud || ltb n up)
            (dd || leb (length proj) (n + down)) gone ln (ground arith) (ground arith)
            (ground arith))
  ]

-- The row that the search starts from: the hint, or row 0 if there is no such row.
start_row : Projection → ℕ → ℕ
start_row proj hint = if ltb hint (length proj) then hint else 0

module _ (f : SharFile) (k : Identity) (not_root : k ≢ root) where
  find_crdt-start :
      (hint : ℕ)
      → 0 < length f.projection
      → (line : List Identity) × (get_elem? f.projection (start_row f.projection hint) ≡ some line)
        × (find_crdt f hint k ≡ search_from f.projection k (start_row f.projection hint) line)
  unfolding find_crdt start_row
  find_crdt-start hint h = elim (Bool-cases (ltb hint (length f.projection))) [
    | inl lt ↦
        let (line, e) = get_elem?-lt f.projection hint (ground arith) in
        (line, rw lt e, rw (lt, is_other, e))
    | inr ge ↦
        let (line, e) = get_elem?-lt f.projection 0 h in
        (line, rw ge e, rw (ge, is_other, get_elem?-ge f.projection hint (ground arith), e))
  ]
    where
      is_other : same k root ≡ false
      is_other = ground (arith, same_iff k root)

  start_row-lt :
      (hint : ℕ) → 0 < length f.projection → start_row f.projection hint < length f.projection
  unfolding start_row
  start_row-lt hint h = ground arith

  column_in-start :
      (hint : ℕ) (line : List Identity)
      → get_elem? f.projection (start_row f.projection hint) ≡ some line
      → column_in f.projection (start_row f.projection hint) k ≡ position k line
  column_in-start hint line e = rw (e, column_in)

  -- A stale hint costs a wider search, and never another result.
  pub find_crdt-located :
      (hint r c : ℕ)
      → LocatedAt f.projection k r c
      → r < length f.projection
      → find_crdt f hint k ≡ ok (r, c)
  unfolding search_from
  find_crdt-located hint r c at lr =
      let (line, e, p) = find_crdt-start hint (omega arith) in
      let q : column_in f.projection (start_row f.projection hint) k ≡ position k line =
        column_in-start hint line e in
      let lt = start_row-lt hint (omega arith) in
      p ∙ elim (Bool-cases (start_row f.projection hint == r)) [
        | inl here ↦
            rw (sym q ∙ column_at f.projection k r c _ at (ground arith), search_from)
              (ap {B = Result (ℕ × ℕ)} (λ i. ok (i, c)) (ground arith))
        | inr away ↦
            rw (sym q ∙ column_elsewhere f.projection k r c _ at (ground arith), search_from)
              (ring_search-located f.projection k _ (start_row f.projection hint) 1 1 false false r
                c at lt lr (ground arith))
      ]

  pub find_crdt-Absent :
      (hint : ℕ)
      → Absent f.projection k
      → 0 < length f.projection
      → find_crdt f hint k ≡ err (out_of_bounds "parent cannot be found")
  unfolding search_from
  find_crdt-Absent hint gone lr =
      let (line, e, p) = find_crdt-start hint lr in
      let lt = start_row-lt hint lr in
      p
      ∙ rw (sym (column_in-start hint line e) ∙ gone _, search_from)
          (ring_search-Absent f.projection k _ (start_row f.projection hint) 1 1 false false gone lt
            (ground arith) (ground arith) (ground arith))
