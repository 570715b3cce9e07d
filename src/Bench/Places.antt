-- ===== src/Bench/Places.antt =====
-- bench.rs, `insert_char` and `remove_char`: the mirror's nodes before and after an edit at a spot.
use mathlib.Core.Option
use mathlib.Core.List.{map-append}
use shario.Prelude.{
  ltb-below, ltb-above, ℕ, zero, suc, ◌+◌, ◌≤◌, ◌<◌, true, false, Option, some, List, [], ◌∷◌, ◌++◌,
  ◌≡◌, leb, ◌==◌, Identity, length, get_elem?, take, drop, set, insert_at, remove_at, map, refl,
  sym, ap, ◌∙◌, arith, append_assoc, append-nil, subst, length-append, Bool-cases, inl, inr,
  take-append-drop, insert_at-take-drop,
}
use shario.Tree.Document.{get_elem?-middle, set-middle}
use shario.Tree.Insert.Live.Steps.{insert_at-next}
use shario.Tree.Delete.Erase.Middle.{remove_at-next, get_elem?-next}
use shario.Bench.{Cell, Line, parent_at, place_char, unplace_char}
use shario.Bench.Mirror.{Node, cell_node, line_nodes, nodes, nodes-append, Spot}

abbrev cell_identity : Cell → Identity
cell_identity c = (c.id, c.peer)

abbrev parent_after : Identity → List Cell → ℕ → Option Identity
parent_after a cs zero = some a
parent_after a cs (suc col) = Option.map cell_identity (get_elem? cs col)

parent_after-cons :
    (a : Identity) (c : Cell) (cs : List Cell) (col : ℕ)
    → parent_after a (c ∷ cs) (suc col) ≡ parent_after (cell_identity c) cs col
parent_after-cons a c cs zero = refl
parent_after-cons a c cs (suc col) = refl

parent_at-after :
    (line : Line) (col : ℕ)
    → parent_at line col ≡ parent_after (line.anchor_id, line.anchor_peer) line.cells col
unfolding parent_at
parent_at-after line zero = refl
parent_at-after line (suc col) = refl

-- The nodes of a line up to a column, the last of them apart.
record Upto (a : Node) (cs : List Cell) (col : ℕ) : Type 0 where
  before : List Node
  last : Node
  parts : a ∷ map cell_node (take col cs) ≡ before ++ last ∷ []
  at : length before ≡ col
  last_is : parent_after a.0 cs col ≡ some last.0

upto : (a : Node) (cs : List Cell) (col : ℕ) → col ≤ length cs → Upto a cs col
upto a cs zero le = record { before = []; last = a; parts = refl; at = refl; last_is = refl }
upto a [] (suc col) le = absurd (omega arith)
upto a (c ∷ cs) (suc col) le =
    let u = upto (cell_node c) cs col (omega arith) in
    record {
      before = a ∷ u.before;
      last = u.last;
      parts = ap (◌∷◌ a) u.parts;
      at = ap suc u.at;
      last_is = parent_after-cons a.0 c cs col ∙ u.last_is;
    }

regroup {ℓ} :
    {A : Type ℓ} (x b : List A) (p : A) (d e : List A)
    → x ++ (((b ++ p ∷ []) ++ d) ++ e) ≡ (x ++ b) ++ p ∷ (d ++ e)
regroup x b p d e = simp append_assoc

-- The nodes around a spot, and what the edits make of them.
pub record Around (lines : List Line) (offset : ℕ) (line : Line) (row col : ℕ) : Type 0 where
  pub before : List Node
  pub parent : Node
  pub after : List Node
  pub parts : nodes lines ≡ before ++ parent ∷ after
  pub at : length before ≡ offset
  pub parent_is : parent_at line col ≡ some parent.0
  pub placed :
      (k : Identity) (value : ℕ)
      → (lines' : List Line) × (place_char lines row line col k value ≡ some lines')
        × (nodes lines' ≡ before ++ parent ∷ (k, value) ∷ after)
  pub unplaced :
      (n : Node) (rest : List Node)
      → after ≡ n ∷ rest
      → (lines' : List Line) × (hint : ℕ) × (unplace_char lines row line col
          ≡ some (lines', n.0, hint))
        × (nodes lines' ≡ (before ++ parent ∷ []) ++ rest)

abbrev anchor_node : Line → Node
anchor_node l = ((l.anchor_id, l.anchor_peer), 10)

module _ {ℓ} {A : Type ℓ} where
  drop-cons :
      (i : ℕ) (xs : List A) (y : A) (ys : List A)
      → drop i xs ≡ y ∷ ys
      → (get_elem? xs i ≡ some y) × (remove_at i xs ≡ take i xs ++ ys) × (i < length xs)
  drop-cons zero [] y ys e = cc
  drop-cons zero (x ∷ xs) y ys e = (ground arith, ground arith, omega arith)
  drop-cons (suc i) [] y ys e = cc
  drop-cons (suc i) (x ∷ xs) y ys e =
      let (found, gone, lt) = drop-cons i xs y ys e in (found, ap (◌∷◌ x) gone, omega (arith, lt))

  drop-nil : (i : ℕ) (xs : List A) → drop i xs ≡ [] → (take i xs ≡ xs) × (length xs ≤ i)
  drop-nil zero [] e = (refl, omega arith)
  drop-nil zero (x ∷ xs) e = cc
  drop-nil (suc i) [] e = (refl, omega arith)
  drop-nil (suc i) (x ∷ xs) e =
      let (all, le) = drop-nil i xs e in (ap (◌∷◌ x) all, omega (arith, le))

leb-of : (a b : ℕ) → a ≤ b → leb a b ≡ true
leb-of a b h = ground arith

module _ (above : List Line) (line : Line) (below : List Line) (col : ℕ)
    (le : col ≤ length line.cells) where
  u : Upto (anchor_node line) line.cells col
  u = upto (anchor_node line) line.cells col le

  lines : List Line
  lines = above ++ line ∷ below

  before : List Node
  before = nodes above ++ u.before

  -- A row in the place of this one, that begins as it does.
  nodes-replaced :
      (cells : List Cell) (rest : List Line)
      → nodes (above ++ record line { cells = take col line.cells ++ cells } ∷ rest)
        ≡ before ++ u.last ∷ (map cell_node cells ++ nodes rest)
  unfolding before
  nodes-replaced cells rest =
      let row : line_nodes (record line { cells = take col line.cells ++ cells })
          ≡ (u.before ++ u.last ∷ []) ++ map cell_node cells =
        ap (◌∷◌ (anchor_node line)) (map-append cell_node (take col line.cells) cells)
        ∙ ap (λ x. x ++ map cell_node cells) u.parts in
      nodes-append above (record line { cells = take col line.cells ++ cells } ∷ rest)
      ∙ ap (λ x. nodes above ++ (x ++ nodes rest)) row
      ∙ regroup (nodes above) u.before u.last (map cell_node cells) (nodes rest)

  nodes-lines :
      nodes lines ≡ before ++ u.last ∷ (map cell_node (drop col line.cells) ++ nodes below)
  unfolding lines
  nodes-lines =
      ap (λ cs. nodes (above ++ record line { cells = cs } ∷ below))
        (sym (take-append-drop col line.cells))
      ∙ nodes-replaced (drop col line.cells) below

  placed_cell :
      (k : Identity) (value : ℕ)
      → (value == 10) ≡ false
      → (lines' : List Line) × (place_char lines (length above) line col k value ≡ some lines')
        × (nodes lines'
            ≡ before ++ u.last ∷ (k, value) ∷ (map cell_node (drop col line.cells) ++ nodes below))
  unfolding place_char lines
  placed_cell k value plain =
      let c : Cell = record { id = k.0; peer = k.1; value = value } in
      (
        above ++ record line { cells = take col line.cells ++ c ∷ drop col line.cells } ∷ below,
        rw (leb-of col (length line.cells) le, plain)
            (ap some (
              set-middle above line (record line { cells = insert_at col c line.cells }) below
              ∙ ap (λ cs. above ++ record line { cells = cs } ∷ below)
                  (insert_at-take-drop col c line.cells))),
        nodes-replaced (c ∷ drop col line.cells) below,
      )

  placed_break :
      (k : Identity) (value : ℕ)
      → (value == 10) ≡ true
      → (lines' : List Line) × (place_char lines (length above) line col k value ≡ some lines')
        × (nodes lines'
            ≡ before ++ u.last ∷ (k, value) ∷ (map cell_node (drop col line.cells) ++ nodes below))
  unfolding place_char lines
  placed_break k value breaks =
      let l : Line = record { anchor_id = k.0; anchor_peer = k.1; cells = drop col line.cells } in
      let upper : Line = record line { cells = take col line.cells } in
      (
        above ++ upper ∷ l ∷ below,
        rw (leb-of col (length line.cells) le, breaks)
            (ap some (
              ap (insert_at (length above + 1) l) (set-middle above line upper below)
              ∙ insert_at-next above upper l below)),
        ap (λ cs. nodes (above ++ record line { cells = cs } ∷ l ∷ below))
              (sym (append-nil (take col line.cells)))
            ∙ nodes-replaced [] (l ∷ below)
            ∙ ap
                (λ v.
                  before ++ u.last ∷ (k, v) ∷ (map cell_node (drop col line.cells) ++ nodes below))
                (sym (ten value breaks)),
      )
    where
      ten : (v : ℕ) → (v == 10) ≡ true → v ≡ 10
      ten v e = ground arith

  unplaced_cell :
      (c : Cell) (cs : List Cell)
      → drop col line.cells ≡ c ∷ cs
      → (lines' : List Line) × (unplace_char lines (length above) line col
          ≡ some (lines', cell_identity c, length above))
        × (nodes lines' ≡ before ++ u.last ∷ (map cell_node cs ++ nodes below))
  unfolding unplace_char lines
  unplaced_cell c cs e =
      let (found, gone, lt) = drop-cons col line.cells c cs e in
      (
        above ++ record line { cells = take col line.cells ++ cs } ∷ below,
        rw (ltb-below col (length line.cells) lt, found)
            (ap (λ ls. some (ls, cell_identity c, length above))
              (set-middle above line (record line { cells = remove_at col line.cells }) below
                ∙ ap (λ x. above ++ record line { cells = x } ∷ below) gone)),
        nodes-replaced cs below,
      )

next_row : (xs : List Line) → length xs + 1 ≡ suc (length xs)
next_row xs = omega arith

module _ (above : List Line) (line m : Line) (ms : List Line) (col : ℕ)
    (le : col ≤ length line.cells) where
  unplaced_break :
      drop col line.cells ≡ []
      → (lines' : List Line) × (unplace_char (above ++ line ∷ m ∷ ms) (length above) line col
          ≡ some (lines', (m.anchor_id, m.anchor_peer), length above + 1))
        × (nodes lines'
            ≡ before above line (m ∷ ms) col le
              ++ (u above line (m ∷ ms) col le).last ∷ (map cell_node m.cells ++ nodes ms))
  unfolding unplace_char before u
  unplaced_break ended =
      let (all, short) = drop-nil col line.cells ended in
      (
        above ++ record line { cells = line.cells ++ m.cells } ∷ ms,
        rw (ltb-above col (length line.cells) short, next_row above, get_elem?-next above line m ms)
            (ap (λ ls. some (ls, (m.anchor_id, m.anchor_peer), suc (length above)))
              (ap (λ ls. set ls (length above) (record line { cells = line.cells ++ m.cells }))
                  (remove_at-next above line m ms)
                ∙ set-middle above line (record line { cells = line.cells ++ m.cells }) ms)),
        ap (λ cs. nodes (above ++ record line { cells = cs ++ m.cells } ∷ ms)) (sym all)
            ∙ nodes-replaced above line (m ∷ ms) col le m.cells ms,
      )

length-before :
    (above : List Line) (line : Line) (below : List Line) (col : ℕ) (le : col ≤ length line.cells)
    → length (before above line below col le) ≡ length (nodes above) + col
unfolding before u
length-before above line below col le =
    length-append (nodes above) (u above line below col le).before
    ∙ ap (λ n. length (nodes above) + n) (u above line below col le).at

abbrev Unplaced : List Line → Line → ℕ → ℕ → List Node → List Node → Type 0
Unplaced lines line row col before after =
    (n : Node) (rest : List Node)
    → after ≡ n ∷ rest
    → (lines' : List Line) × (hint : ℕ) × (unplace_char lines row line col
        ≡ some (lines', n.0, hint))
      × (nodes lines' ≡ before ++ rest)

append-cons {ℓ} :
    {A : Type ℓ} (xs : List A) (p : A) (ys : List A) → (xs ++ p ∷ []) ++ ys ≡ xs ++ p ∷ ys
append-cons xs p ys = append_assoc xs (p ∷ []) ys

unplaced_end :
    (above : List Line) (line : Line) (below : List Line) (col : ℕ) (le : col ≤ length line.cells)
    (n : Node) (rest : List Node)
    → drop col line.cells ≡ []
    → nodes below ≡ n ∷ rest
    → (lines' : List Line) × (hint : ℕ) × (unplace_char
          (above ++ line ∷ below)
          (length above)
          line
          col
        ≡ some (lines', n.0, hint))
      × (nodes lines'
          ≡ (before above line below col le ++ (u above line below col le).last ∷ []) ++ rest)
unplaced_end above line [] col le n rest ended e = cc
unplaced_end above line (m ∷ ms) col le n rest ended e =
    let (ls, run, ns) = unplaced_break above line m ms col le ended in
    (
      ls,
      length above + 1,
      run ∙ ap (λ k. some (ls, k, length above + 1)) (ground arith),
      ns
          ∙ sym (append-cons _ _ _)
          ∙ ap
              (λ x.
                (before above line (m ∷ ms) col le ++ (u above line (m ∷ ms) col le).last ∷ [])
                ++ x)
              (ground arith),
    )

removal_here :
    (above : List Line) (line : Line) (below : List Line) (col : ℕ) (le : col ≤ length line.cells)
    → Unplaced
        (above ++ line ∷ below)
        line
        (length above)
        col
        (before above line below col le ++ (u above line below col le).last ∷ [])
        (map cell_node (drop col line.cells) ++ nodes below)
unfolding lines
removal_here above line below col le n rest e = by_cells (drop col line.cells) refl e
  where
    by_cells :
        (cs : List Cell)
        → drop col line.cells ≡ cs
        → map cell_node cs ++ nodes below ≡ n ∷ rest
        → (lines' : List Line) × (hint : ℕ) × (unplace_char
              (above ++ line ∷ below)
              (length above)
              line
              col
            ≡ some (lines', n.0, hint))
          × (nodes lines'
              ≡ (before above line below col le ++ (u above line below col le).last ∷ []) ++ rest)
    by_cells [] ended e' = unplaced_end above line below col le n rest ended e'
    by_cells (c ∷ cs) more e' =
        let (ls, run, ns) = unplaced_cell above line below col le c cs more in
        (
          ls,
          length above,
          run ∙ ap (λ k. some (ls, k, length above)) (ground arith),
          ns
              ∙ sym (append-cons _ _ _)
              ∙ ap
                  (λ x.
                    (before above line below col le ++ (u above line below col le).last ∷ []) ++ x)
                  (ground arith),
        )

placed_at :
    (above : List Line) (line : Line) (below : List Line) (col : ℕ) (le : col ≤ length line.cells)
    (k : Identity) (value : ℕ)
    → (lines' : List Line) × (place_char (above ++ line ∷ below) (length above) line col k value
        ≡ some lines')
      × (nodes lines'
          ≡ before above line below col le
            ++ (u above line below col le).last
              ∷ (k, value)
              ∷ (map cell_node (drop col line.cells) ++ nodes below))
unfolding lines
placed_at above line below col le k value = elim (Bool-cases (value == 10)) [
  | inl breaks ↦ placed_break above line below col le k value breaks
  | inr plain ↦ placed_cell above line below col le k value plain
]

around_at :
    (above : List Line) (line : Line) (below : List Line) (col : ℕ)
    → col ≤ length line.cells
    → Around (above ++ line ∷ below) (length (nodes above) + col) line (length above) col
unfolding lines
around_at above line below col le = record {
  before = before above line below col le;
  parent = (u above line below col le).last;
  after = map cell_node (drop col line.cells) ++ nodes below;
  parts = nodes-lines above line below col le;
  at = length-before above line below col le;
  parent_is = parent_at-after line col ∙ (u above line below col le).last_is;
  placed = placed_at above line below col le;
  unplaced = removal_here above line below col le;
}

pub Spot-Around :
    {lines : List Line} {offset row col : ℕ} (s : Spot lines offset row col)
    → Around lines offset s.line row col
Spot-Around {lines} {offset} {row} {col} s =
    subst (λ ls. Around ls offset s.line row col) (sym s.whole)
      (subst (λ o. Around (s.above ++ s.line ∷ s.below) o s.line row col) s.at_offset
        (subst
          (λ r. Around (s.above ++ s.line ∷ s.below) (length (nodes s.above) + col) s.line r col)
          s.at_row (around_at s.above s.line s.below col s.in_line)))

pub Spot-row :
    {lines : List Line} {offset row col : ℕ} (s : Spot lines offset row col)
    → get_elem? lines row ≡ some s.line
Spot-row {row} s =
    ap (λ ls. get_elem? ls row) s.whole
    ∙ ap (get_elem? (s.above ++ s.line ∷ s.below)) (sym s.at_row)
    ∙ get_elem?-middle s.above s.line s.below
