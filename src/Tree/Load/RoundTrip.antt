-- ===== src/Tree/Load/RoundTrip.antt =====
-- shar/core/tree.rs, `add_file`: the text of a loaded file.
use mathlib.Core.Path.{ap₂}
use mathlib.Core.List.{map-append}
use shario.Prelude.{
  ℕ, zero, suc, ◌+◌, ◌≤◌, ◌<◌, ◌^◌, false, none, some, List, [], ◌∷◌, ◌++◌, map, if◌then◌else◌,
  Identity, same, same_iff, same_refl, length, ◌≡◌, inl, inr, refl, sym, ap, ◌∙◌, arith, Bool-cases,
  identity_eq, append_assoc, append-nil,
}
use shario.Types.{
  CrdtRelation, Crdt, Result, ok, err, fault, PathBuf, parent_of, identity_of, new_relation,
}
use shario.HashMap
use shario.HashMap.{get-insert}
use shario.Tree.File.{is_line_break, Characters, SharFile, root}
use shario.Tree.Insert.{add_crdt, Added}
use shario.Tree.Insert.Climb.{IsNumbered}
use shario.Tree.Directory.Routed.{add_crdt-path}
use shario.Tree.Insert.Order.{placed, behind, behind-middle, sibling_place, info}
use shario.Tree.Insert.Live.{add_crdt-placed_live}
use shario.Tree.Insert.Siblings.{sibling_place-nil}
use shario.Tree.Document.{document, count, count-append, live_count, breaks_line, IsWellFormed}
use shario.Tree.Load.{seeded, next_id, loaded_crdt, continue, load_chars, add_file}

-- The characters of the document, the sentinel's '\0' at the front included.
abbrev pub text : SharFile → List ℕ
text f = map (λ k. (info f.characters k).value) (document f)

-- What loading keeps: the document ends with the last node, which is live, and ids above the
-- counter are free, and the others count from 1.
record IsLoading (f : SharFile) (prev_id counter : ℕ) : Type 0 where
  well_formed : IsWellFormed f
  front : List Identity
  ends : document f ≡ front ++ (prev_id, 0) ∷ []
  last : CrdtRelation
  known : HashMap.get (prev_id, 0) f.characters ≡ some last
  live : last.deleted ≡ false
  free : (k : Identity) → counter < k.0 → HashMap.get k f.characters ≡ none
  numbered : IsNumbered f
  below : prev_id ≤ counter

pub seeded-IsWellFormed : (path : PathBuf) → IsWellFormed (seeded path)
unfolding HashMap.get breaks_line same
seeded-IsWellFormed path = record {
  shape = ((refl, tt), tt);
  counts = λ k. ground (arith, same_iff root k);
  rooted = (refl, inl refl, tt);
  sentinel = refl;
}

pub text-seeded : (path : PathBuf) → text (seeded path) ≡ 0 ∷ []
unfolding HashMap.get same
text-seeded path = refl

seeded-IsLoading : (path : PathBuf) (counter : ℕ) → IsLoading (seeded path) 0 counter
unfolding HashMap.get same
seeded-IsLoading path counter = record {
  well_formed = seeded-IsWellFormed path;
  front = [];
  ends = refl;
  last = new_relation 0 0 0;
  known = refl;
  live = refl;
  free = λ k lt. ground (arith, same_iff root k);
  numbered = λ k zero other. ground (arith, same_iff root k);
  below = omega arith;
}

-- At the end of a document every new child of the last node goes behind it.
placed_end :
    (chars : Characters) (crdt : Crdt) (front : List Identity) (p : Identity)
    → parent_of crdt.relation ≡ p
    → count p front ≡ 0
    → placed chars crdt (front ++ p ∷ []) ≡ (front ++ p ∷ []) ++ identity_of crdt ∷ []
unfolding placed
placed_end chars crdt front p e fresh = elim (Bool-cases (is_line_break crdt.relation.value)) [
  | inl breaks ↦ rw breaks (
      ap (λ q. behind q (◌∷◌ (identity_of crdt)) (front ++ p ∷ [])) e
      ∙ behind-middle p (◌∷◌ (identity_of crdt)) front [] fresh
      ∙ sym (append_assoc front (p ∷ []) (identity_of crdt ∷ [])))
  | inr plain ↦ rw plain (
      ap (λ q. behind q (sibling_place chars q (identity_of crdt)) (front ++ p ∷ [])) e
      ∙ behind-middle p (sibling_place chars p (identity_of crdt)) front [] fresh
      ∙ ap (λ l. front ++ p ∷ l) (sibling_place-nil chars p (identity_of crdt))
      ∙ sym (append_assoc front (p ∷ []) (identity_of crdt ∷ [])))
]

-- The values of a document's identities do not change by a node that is not among them.
pub values-insert :
    (chars : Characters) (k : Identity) (r : CrdtRelation) (xs : List Identity)
    → count k xs ≡ 0
    → map (λ j. (info (HashMap.insert k r chars) j).value) xs ≡ map (λ j. (info chars j).value) xs
values-insert chars k r [] h = refl
values-insert chars k r (x ∷ xs) h =
    ground (arith, values-insert chars k r xs, same_iff k x, same_iff x k, get-insert k x r chars)

-- The document after the next character.
placed_here :
    (f : SharFile) (crdt : Crdt) {prev_id counter : ℕ} (l : IsLoading f prev_id counter)
    → parent_of crdt.relation ≡ (prev_id, 0)
    → placed f.characters crdt (document f) ≡ document f ++ identity_of crdt ∷ []
placed_here f crdt {prev_id} l e =
    ap (placed f.characters crdt) l.ends
    ∙ placed_end f.characters crdt l.front (prev_id, 0) e fresh
    ∙ ap (λ d. d ++ identity_of crdt ∷ []) (sym l.ends)
  where
    once : count (prev_id, 0) ((prev_id, 0) ∷ []) ≡ 1
    once = rw (same_refl (prev_id, 0))

    fresh : count (prev_id, 0) l.front ≡ 0
    fresh = omega (
      arith,
      ap (count (prev_id, 0)) l.ends,
      count-append (prev_id, 0) l.front ((prev_id, 0) ∷ []),
      l.well_formed.counts (prev_id, 0),
      ap live_count l.known,
      once,
      ap {B = ℕ} (λ d. if d then 0 else 1) l.live,
    )

-- The value that a new node shows.
pub value-insert :
    (chars : Characters) (k : Identity) (r : CrdtRelation)
    → (info (HashMap.insert k r chars) k).value ≡ r.value
value-insert chars k r = ground (arith, get-insert k k r chars, same_refl k)

-- One round of the loop.
record Loaded (f : SharFile) (c counter : ℕ) (out : Added) : Type 0 where
  pos : ℕ × ℕ
  result : out.1 ≡ ok (some pos)
  still : IsLoading out.0 (counter + 1) (counter + 1)
  grown : document out.0 ≡ document f ++ (counter + 1, 0) ∷ []
  shown : text out.0 ≡ text f ++ c ∷ []

add_crdt-Loaded :
    (f : SharFile) (line prev_id counter c : ℕ)
    → IsLoading f prev_id counter
    → Loaded f c counter (add_crdt f line (loaded_crdt (counter + 1) prev_id c))
add_crdt-Loaded f line prev_id counter c l =
    let crdt = loaded_crdt (counter + 1) prev_id c in
    let (pos, result, (well, chars, doc)) =
      add_crdt-placed_live f line crdt l.well_formed l.known l.live
        (l.free (counter + 1, 0) (omega arith)) refl in
    let grown = doc ∙ placed_here f crdt l refl in
    record {
      pos = pos;
      result = result;
      still = record {
        well_formed = well;
        front = document f;
        ends = grown;
        last = new_relation c prev_id 0;
        known =
            ap (HashMap.get (counter + 1, 0)) chars
            ∙ get-insert (counter + 1, 0) (counter + 1, 0) crdt.relation f.characters
            ∙ rw (same_refl (counter + 1, 0));
        live = refl;
        free = λ k lt.
            ap (HashMap.get k) chars
            ∙ get-insert (counter + 1, 0) k crdt.relation f.characters
            ∙ ground (arith, same_iff (counter + 1, 0) k, l.free k);
        numbered = λ k zero other.
            ap (HashMap.get k) chars
            ∙ get-insert (counter + 1, 0) k crdt.relation f.characters
            ∙ ground (arith, same_iff (counter + 1, 0) k, l.numbered k);
        below = omega arith;
      };
      grown = grown;
      shown =
          ap (map (λ k. (info (add_crdt f line crdt).0.characters k).value)) grown
          ∙ ap (λ m. map (λ k. (info m k).value) (document f ++ (counter + 1, 0) ∷ [])) chars
          ∙ map-append _ (document f) ((counter + 1, 0) ∷ [])
          ∙ ap₂ (λ xs ys. xs ++ ys)
              (values-insert f.characters (counter + 1, 0) crdt.relation (document f)
                (fresh (counter + 1) (omega arith)))
              (ap (λ n. n ∷ []) (value-insert f.characters (counter + 1, 0) crdt.relation));
    }
  where
    fresh : (id : ℕ) → counter < id → count (id, 0) (document f) ≡ 0
    fresh id lt = l.well_formed.counts (id, 0) ∙ ap live_count (l.free (id, 0) lt)

-- The identities that loading gives to `n` characters.
abbrev pub ids_from : ℕ → ℕ → List Identity
ids_from counter zero = []
ids_from counter (suc n) = (counter + 1, 0) ∷ ids_from (counter + 1) n

continue-ok {ℓ} :
    {A : Type ℓ} (r : Added) (next : SharFile → Result A) (pos : ℕ × ℕ)
    → r.1 ≡ ok (some pos)
    → continue r next ≡ next r.0
unfolding continue
continue-ok (f, ok o) next pos e = refl
continue-ok (f, err x) next pos e = cc
continue-ok (f, fault) next pos e = cc

abbrev pub LoadedAll : SharFile → ℕ → List ℕ → Result (SharFile × ℕ) → Type 0
LoadedAll f counter cs out =
    (g : SharFile) × (out ≡ ok (g, counter + length cs))
    × IsWellFormed g
    × (document g ≡ document f ++ ids_from counter (length cs))
    × (text g ≡ text f ++ cs)
    × (g.file_path ≡ f.file_path)
    × IsNumbered g
    × ((k : Identity) → counter + length cs < k.0 → HashMap.get k g.characters ≡ none)

load_chars-LoadedAll :
    (cs : List ℕ) (f : SharFile) (line prev_id counter : ℕ)
    → IsLoading f prev_id counter
    → counter + length cs < 2 ^ 32
    → LoadedAll f counter cs (load_chars cs f line prev_id counter)
unfolding load_chars
load_chars-LoadedAll [] f line prev_id counter l lt = (
  f,
  ap (λ n. ok (f, n)) (omega arith),
  l.well_formed,
  sym (append-nil (document f)),
  sym (append-nil (text f)),
  refl,
  l.numbered,
  λ k lt. l.free k (omega arith),
)
load_chars-LoadedAll (c ∷ cs) f line prev_id counter l lt =
    let step = add_crdt-Loaded f line prev_id counter c l in
    let id : next_id counter ≡ counter + 1 = omega arith in
    let (g, run, well, doc, shown, path, numbered, free) =
      load_chars-LoadedAll cs (add_crdt f line (loaded_crdt (counter + 1) prev_id c)).0
        (if is_line_break c then line + 1 else line) (counter + 1) (counter + 1) step.still
        (omega arith) in
    (
      g,
      ap
            (λ i.
              continue (add_crdt f line (loaded_crdt i prev_id c))
                (λ g. load_chars cs g (if is_line_break c then line + 1 else line) i i))
            id
          ∙ continue-ok _ _ step.pos step.result
          ∙ run
          ∙ ap (λ n. ok (g, n)) (omega arith),
      well,
      doc
          ∙ ap (λ d. d ++ ids_from (counter + 1) (length cs)) step.grown
          ∙ append_assoc (document f) ((counter + 1, 0) ∷ []) (ids_from (counter + 1) (length cs)),
      shown ∙ ap (λ d. d ++ cs) step.shown ∙ append_assoc (text f) (c ∷ []) cs,
      path ∙ add_crdt-path f line (loaded_crdt (counter + 1) prev_id c),
      numbered,
      λ k lt. free k (omega arith),
    )

-- All that loading gives.
pub add_file-LoadedAll :
    (path : PathBuf) (contents : List ℕ) (counter : ℕ)
    → counter + length contents < 2 ^ 32
    → LoadedAll (seeded path) counter contents (add_file path contents counter)
unfolding add_file
add_file-LoadedAll path contents counter lt =
    load_chars-LoadedAll contents (seeded path) 0 0 counter (seeded-IsLoading path counter) lt

-- Loading from disk, while the counter does not pass u32: it succeeds, gives the characters
-- consecutive ids of peer 0, and leaves a well-formed file that shows the text that was read, in
-- order, behind the sentinel.
pub add_file-text :
    (path : PathBuf) (contents : List ℕ) (counter : ℕ)
    → counter + length contents < 2 ^ 32
    → (f : SharFile) × (add_file path contents counter ≡ ok (f, counter + length contents))
      × IsWellFormed f
      × (document f ≡ root ∷ ids_from counter (length contents))
      × (text f ≡ 0 ∷ contents)
unfolding HashMap.get same
add_file-text path contents counter lt =
    let (f, run, well, doc, shown, _, _, _) = add_file-LoadedAll path contents counter lt in
    (f, run, well, doc, shown)
