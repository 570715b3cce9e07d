-- ===== src/Tree/Directory/Borrowed.antt =====
-- shar/core/tree.rs, `SharDirectory::find_file`: what a write through the borrow changes.
use shario.Prelude.{
  String, Bool, false, ◌&&◌, Option, none, some, List, [], ◌∷◌, ◌≡◌, refl, arith, subst, string_eq,
  Bool-cases, Option-cases, inl, inr,
}
use shario.Types.{PathBuf}
use shario.Tree.File.{SharFile}
use shario.Tree.Directory.{
  SharDirectory, Directories, directory, nil, cons, Borrow, find_sub_file, ends_with, dir_name,
  find_in, find_file, find_below, route, is_nil, is_empty, file_name, after_name, reborrow,
}

-- After a write of `g` that keeps the file's path, the same search gives `g` and writes to the same
-- place, and the owner keeps `Keeps`.
abbrev pub Again :
    {A : Type 0} → (A → Option (Borrow A)) → (A → Type 0) → Option (Borrow A) → Type 0
Again find Keeps none = Unit
Again find Keeps (some (f, back)) =
    (g : SharFile) → g.file_path ≡ f.file_path → (find (back g) ≡ some (g, back)) × Keeps (back g)

Again-reborrow :
    {A B : Type 0} (find : A → Option (Borrow A)) (Keeps : A → Type 0)
    (find' : B → Option (Borrow B)) (Keeps' : B → Type 0) (put : A → B)
    → ((a : A) (b : Borrow A)
        → find a ≡ some b
        → Keeps a
        → (find' (put a) ≡ reborrow put (some b)) × Keeps' (put a))
    → (o : Option (Borrow A)) → Again find Keeps o
    → Again find' Keeps' (reborrow put o)
Again-reborrow find Keeps find' Keeps' put step none h = tt
Again-reborrow find Keeps find' Keeps' put step (some (f, back)) h =
    λ g p. step (back g) (g, back) (h g p).0 (h g p).1

abbrev Any : {A : Type 0} → A → Type 0
Any a = Unit

find_sub_file-Again :
    (next : String) (fs : List SharFile)
    → Again (λ fs'. find_sub_file fs' next) Any (find_sub_file fs next)
unfolding find_sub_file
find_sub_file-Again next [] = tt
find_sub_file-Again next (f ∷ fs) = elim (Bool-cases (ends_with f.file_path next)) [
  | inl here ↦ rw here (λ g p. (rw (p, here), tt))
  | inr later ↦ rw later (
      Again-reborrow (λ fs'. find_sub_file fs' next) Any (λ fs'. find_sub_file fs' next) Any (◌∷◌ f)
        (λ a b e _. (rw (later, e), tt)) (find_sub_file fs next) (find_sub_file-Again next fs))
]

is_empty-found :
    (next : String) (fs : List SharFile) (b : Borrow (List SharFile))
    → find_sub_file fs next ≡ some b
    → is_empty fs ≡ false
unfolding find_sub_file is_empty
is_empty-found next [] b e = cc
is_empty-found next (f ∷ fs) b e = refl

is_nil-found :
    (next : String) (path : PathBuf) (ds : Directories) (b : Borrow Directories)
    → find_below ds next path ≡ some b
    → is_nil ds ≡ false
unfolding find_below is_nil
is_nil-found next path nil b e = cc
is_nil-found next path (cons d ds) b e = refl

-- A directory whose search comes to its own `route`.
record Enters (name : PathBuf) (path rest : PathBuf) (this : String) : Type 0 where
  named : file_name name ≡ some this
  behind : after_name this path ≡ some rest

and_false : (x : Bool) → (x && false) ≡ false
and_false x = ground arith

route-Again :
    (name : PathBuf) (dirs : Directories) (files : List SharFile) (path rest : PathBuf)
    (this : String)
    → Enters name path rest this
    → ((next : String) → Again (λ ds. find_below ds next path) Any (find_below dirs next path))
    → Again
        (λ d. find_file d path)
        (λ d. dir_name d ≡ name)
        (route name dirs files (λ next. find_below dirs next path) rest)
unfolding route find_file find_in
route-Again name dirs files path [] this h ih = tt
route-Again name dirs files path (next ∷ []) this h ih =
    Again-reborrow (λ fs. find_sub_file fs next) Any (λ d. find_file d path)
      (λ d. dir_name d ≡ name) (directory name dirs)
      (λ a b e _.
        let some_file : (is_nil dirs && is_empty a) ≡ false =
          rw (is_empty-found next a b e) (and_false (is_nil dirs)) in
        (rw (some_file, h.named, h.behind, e), refl))
      (find_sub_file files next) (find_sub_file-Again next files)
route-Again name dirs files path (next ∷ more ∷ rest) this h ih =
    Again-reborrow (λ ds. find_below ds next path) Any (λ d. find_file d path)
      (λ d. dir_name d ≡ name) (λ ds. directory name ds files)
      (λ a b e _.
        let some_child : (is_nil a && is_empty files) ≡ false =
          rw (is_nil-found next path a b e) refl in
        (rw (some_child, h.named, h.behind, e), refl))
      (find_below dirs next path) (ih next)

find_in-Again :
    (name : PathBuf) (dirs : Directories) (files : List SharFile) (path : PathBuf)
    → ((next : String) → Again (λ ds. find_below ds next path) Any (find_below dirs next path))
    → Again
        (λ d. find_file d path)
        (λ d. dir_name d ≡ name)
        (find_in name dirs files (λ next. find_below dirs next path) path)
unfolding find_in
find_in-Again name dirs files path ih = elim (Bool-cases (is_nil dirs && is_empty files)) [
  | inl hollow ↦ rw hollow tt
  | inr filled ↦ elim (Option-cases (file_name name)) [
    | inl unnamed ↦ rw (filled, unnamed) tt
    | inr (this, named) ↦ elim (Option-cases (after_name this path)) [
      | inl astray ↦ rw (filled, named, astray) tt
      | inr (rest, behind) ↦
          rw (filled, named, behind)
            (route-Again name dirs files path rest this (record { named = named; behind = behind })
              ih)
    ]
  ]
]

mutual
  unfolding find_file find_below find_in

  find_file-Again :
      (path : PathBuf) (d : SharDirectory)
      → Again (λ e. find_file e path) (λ e. dir_name e ≡ dir_name d) (find_file d path)
  find_file-Again path (directory name dirs files) =
      find_in-Again name dirs files path (find_below-Again path dirs)

  find_below-Again :
      (path : PathBuf) (ds : Directories) (next : String)
      → Again (λ e. find_below e next path) Any (find_below ds next path)
  find_below-Again path nil next = tt
  find_below-Again path (cons d ds) next = elim (Bool-cases (ends_with (dir_name d) next)) [
    | inl here ↦ rw here (
        Again-reborrow (λ e. find_file e path) (λ e. dir_name e ≡ dir_name d)
          (λ e. find_below e next path) Any (λ e. cons e ds)
          (λ a b e same_name. (rw (same_name, here, e), tt)) (find_file d path)
          (find_file-Again path d))
    | inr later ↦ rw later (
        Again-reborrow (λ e. find_below e next path) Any (λ e. find_below e next path) Any (cons d)
          (λ a b e _. (rw (later, e), tt)) (find_below ds next path)
          (find_below-Again path ds next))
  ]

-- A path that leads to a file leads, once the file is written through the borrow with its own path
-- kept, to what was written, and a further write goes to the same place, whichever directories and
-- files stand beside it. The directory keeps its name.
pub find_file-written :
    (d : SharDirectory) (path : PathBuf) (f g : SharFile) (back : SharFile → SharDirectory)
    → find_file d path ≡ some (f, back)
    → g.file_path ≡ f.file_path
    → (find_file (back g) path ≡ some (g, back)) × (dir_name (back g) ≡ dir_name d)
find_file-written d path f g back e p =
    subst (Again (λ e. find_file e path) (λ e. dir_name e ≡ dir_name d)) e (find_file-Again path d)
      g p
