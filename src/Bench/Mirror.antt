-- ===== src/Bench/Mirror.antt =====
-- bench.rs, `locate` and the mirror: its lines as one sequence of nodes, and its text.
use shario.Prelude.{
  ℕ, suc, ◌+◌, ◌-◌, ◌≤◌, ◌<◌, false, some, List, [], ◌∷◌, ◌++◌, ◌≡◌, leb, Identity, length, map,
  refl, sym, ap, ◌∙◌, arith, append_assoc, append-nil, length-append, Bool-cases, inl, inr, subst,
}
use shario.Bench.{Cell, Line, locate_from, locate, cell_values, current_text}

-- An identity and its character.
abbrev pub Node : Type 0
Node = Identity × ℕ

abbrev pub cell_node : Cell → Node
cell_node c = ((c.id, c.peer), c.value)

abbrev pub line_nodes : Line → List Node
line_nodes l = ((l.anchor_id, l.anchor_peer), 10) ∷ map cell_node l.cells

-- The mirror's nodes, anchors included, in the order of the text.
abbrev pub nodes : List Line → List Node
nodes [] = []
nodes (l ∷ ls) = line_nodes l ++ nodes ls

abbrev pub ids : List Node → List Identity
ids ns = map (λ n. n.0) ns

abbrev pub values : List Node → List ℕ
values ns = map (λ n. n.1) ns

pub nodes-append : (xs ys : List Line) → nodes (xs ++ ys) ≡ nodes xs ++ nodes ys
nodes-append [] ys = refl
nodes-append (l ∷ ls) ys =
    ap (λ n. line_nodes l ++ n) (nodes-append ls ys)
    ∙ sym (append_assoc (line_nodes l) (nodes ls) (nodes ys))

values-cells :
    (cs : List Cell) (rest : List ℕ) → cell_values cs ++ rest ≡ values (map cell_node cs) ++ rest
values-cells [] rest = refl
values-cells (c ∷ cs) rest = ap (◌∷◌ c.value) (values-cells cs rest)

values-append : (xs ys : List Node) → values (xs ++ ys) ≡ values xs ++ values ys
values-append [] ys = refl
values-append (x ∷ xs) ys = ap (◌∷◌ x.1) (values-append xs ys)

-- The text, by the nodes behind the first anchor.
pub current_text-nodes :
    (l : Line) (ls : List Line) → 10 ∷ current_text (l ∷ ls) ≡ values (nodes (l ∷ ls))
unfolding current_text
current_text-nodes l [] =
    ap (λ vs. 10 ∷ vs)
      (sym (append-nil (cell_values l.cells))
        ∙ values-cells l.cells []
        ∙ sym (values-append (map cell_node l.cells) []))
current_text-nodes l (m ∷ ls) =
    ap (λ vs. 10 ∷ cell_values l.cells ++ vs) (current_text-nodes m ls)
    ∙ ap (λ vs. 10 ∷ vs)
        (values-cells l.cells (values (nodes (m ∷ ls)))
          ∙ sym (values-append (map cell_node l.cells) (nodes (m ∷ ls))))

length-map {ℓ κ} :
    {A : Type ℓ} {B : Type κ} (f : A → B) (xs : List A) → length (map f xs) ≡ length xs
length-map f [] = refl
length-map f (x ∷ xs) = ap suc (length-map f xs)

length-nodes :
    (l : Line) (ls : List Line) → length (nodes (l ∷ ls)) ≡ suc (length l.cells + length (nodes ls))
length-nodes l ls =
    omega (arith, length-append (map cell_node l.cells) (nodes ls), length-map cell_node l.cells)

-- A row and a column of the mirror, with all that stands around them.
pub record Spot (lines : List Line) (offset row col : ℕ) : Type 0 where
  pub above : List Line
  pub line : Line
  pub below : List Line
  pub whole : lines ≡ above ++ line ∷ below
  pub at_row : length above ≡ row
  pub in_line : col ≤ length line.cells
  pub at_offset : length (nodes above) + col ≡ offset

leb-lt : (a b : ℕ) → leb a b ≡ false → b < a
leb-lt a b h = ground arith

add_zero : (n : ℕ) → n + 0 ≡ n
add_zero n = omega arith

next_row : (n m : ℕ) → n + suc m ≡ suc n + m
next_row n m = omega arith

below-Spot :
    (line : Line) (rest : List Line) (offset acc r col : ℕ)
    → acc + length line.cells + 1 ≤ offset
    → Spot rest (offset - (acc + length line.cells + 1)) r col
    → Spot (line ∷ rest) (offset - acc) (suc r) col
below-Spot line rest offset acc r col le s = record {
  above = line ∷ s.above;
  line = s.line;
  below = s.below;
  whole = ap (◌∷◌ line) s.whole;
  at_row = ap suc s.at_row;
  in_line = s.in_line;
  at_offset = omega (arith, s.at_offset, length-nodes line s.above);
}

-- `locate` finds a spot for each offset up to the length of the text.
locate_from-Spot :
    (lines : List Line) (row acc offset : ℕ)
    → acc ≤ offset
    → offset < acc + length (nodes lines)
    → (r : ℕ) × (col : ℕ) × (locate_from lines row acc offset ≡ some (row + r, col))
      × Spot lines (offset - acc) r col
unfolding locate_from
locate_from-Spot [] row acc offset le lt = absurd (omega arith)
locate_from-Spot (line ∷ rest) row acc offset le lt =
    elim (Bool-cases (leb offset (acc + length line.cells))) [
      | inl here ↦ (
        0,
        offset - acc,
        ground (arith, add_zero row),
        record {
          above = [];
          line = line;
          below = rest;
          whole = refl;
          at_row = refl;
          in_line = ground arith;
          at_offset = omega arith;
        },
      )
      | inr later ↦
          let (r, col, found, spot) =
            locate_from-Spot rest (suc row) (acc + length line.cells + 1) offset
              (omega (arith, leb-lt _ _ later))
              (omega (arith, length-nodes line rest, leb-lt _ _ later)) in
          (
            suc r,
            col,
            ground (arith, found, next_row row r),
            below-Spot line rest offset acc r col (omega (arith, leb-lt _ _ later)) spot,
          )
    ]

-- Each offset up to the length of the text has a spot, which `locate` finds.
pub locate-Spot :
    (lines : List Line) (offset : ℕ)
    → offset < length (nodes lines)
    → (row : ℕ) × (col : ℕ) × (locate lines offset ≡ some (row, col)) × Spot lines offset row col
unfolding locate
locate-Spot lines offset lt =
    let (row, col, found, spot) = locate_from-Spot lines 0 0 offset (omega arith) (omega arith) in
    (
      row,
      col,
      found ∙ ap (λ r. some (r, col)) (omega arith),
      subst (λ o. Spot lines o row col) (omega arith) spot,
    )
