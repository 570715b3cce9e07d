-- ===== src/Tree/Directory/Listed/Shape.antt =====
-- shar/core/tree.rs, `SharDirectory`: a directory whose paths are as `read_dir` lists them, and its files.
use shario.Prelude.{
  String, true, false, Option, some, List, [], ◌∷◌, ◌++◌, All, ◌⊎◌, inl, inr, ◌≡◌, ◌≢◌, refl, sym,
  ap, ◌∙◌, string_eq, Bool-cases, subst,
}
use shario.Types.{PathBuf}
use shario.Tree.File.{SharFile}
use shario.Tree.Directory.{
  SharDirectory, Directories, directory, nil, cons, Borrow, find_sub_file, ends_with, dir_name,
  file_name, after_name, reborrow,
}

-- A name that is neither the root nor `..` nor `.`.
abbrev pub IsNormal : String → Type 0
IsNormal c =
    (string_eq.beq c "/" ≡ false) × (string_eq.beq c ".." ≡ false) × (string_eq.beq c "." ≡ false)

-- The last component of a directory's path is a normal one, which the path has nowhere earlier.
abbrev pub IsNamedOnce : PathBuf → Type 0
IsNamedOnce name =
    (base : PathBuf) × (this : String) × (name ≡ base ++ this ∷ [])
    × All (λ c. string_eq.beq c this ≡ false) base
    × IsNormal this

-- Files directly under a path, no two with the same one.
abbrev pub FilesUnder : PathBuf → List SharFile → Type 0
FilesUnder name [] = Unit
FilesUnder name (f ∷ fs) =
    ((n : String) × (f.file_path ≡ name ++ n ∷ []))
    × All (λ g. g.file_path ≢ f.file_path) fs
    × FilesUnder name fs

abbrev pub NotNamed : PathBuf → Directories → Type 0
NotNamed p nil = Unit
NotNamed p (cons d ds) = (dir_name d ≢ p) × NotNamed p ds

unfoldable mutual
  -- Every file and directory stands under the path of its parent, with a name of its own.
  pub IsListed : SharDirectory → Type 0
  IsListed (directory name dirs files) =
      IsNamedOnce name × FilesUnder name files × ListedUnder name dirs

  pub ListedUnder : PathBuf → Directories → Type 0
  ListedUnder name nil = Unit
  ListedUnder name (cons d ds) =
      ((n : String) × (dir_name d ≡ name ++ n ∷ []))
      × NotNamed (dir_name d) ds
      × IsListed d
      × ListedUnder name ds

pub beq_self : (c : String) → string_eq.beq c c ≡ true
beq_self c = (string_eq.beq_iff c c).1 refl

pub file_name-last :
    (base : PathBuf) (this : String) → IsNormal this → file_name (base ++ this ∷ []) ≡ some this
unfolding file_name
file_name-last [] this (slash, up, dot) = rw (slash, up, dot)
file_name-last (c ∷ []) this normal = file_name-last [] this normal
file_name-last (c ∷ d ∷ cs) this normal = file_name-last (d ∷ cs) this normal

pub after_name-first :
    (base : PathBuf) (this : String) (rest : PathBuf)
    → All (λ c. string_eq.beq c this ≡ false) base
    → after_name this (base ++ this ∷ rest) ≡ some rest
unfolding after_name
after_name-first [] this rest h = rw (beq_self this)
after_name-first (c ∷ cs) this rest (other, h) = rw other (after_name-first cs this rest h)

pub ends_with-last :
    (base : PathBuf) (n next : String) → ends_with (base ++ n ∷ []) next ≡ string_eq.beq n next
unfolding ends_with
ends_with-last [] n next = refl
ends_with-last (c ∷ []) n next = refl
ends_with-last (c ∷ d ∷ cs) n next = ends_with-last (d ∷ cs) n next

-- Where a list of two parts has an element.
pub append_split {ℓ} :
    {A : Type ℓ} (xs ys front : List A) (a : A) (rest : List A)
    → xs ++ ys ≡ front ++ a ∷ rest
    → ((mid : List A) × (xs ≡ front ++ a ∷ mid) × (rest ≡ mid ++ ys))
      ⊎ ((mid : List A) × (front ≡ xs ++ mid) × (ys ≡ mid ++ a ∷ rest))
append_split [] ys front a rest e = inr (front, refl, e)
append_split (x ∷ xs) ys [] a rest e = inl (xs, cc, cc)
append_split (x ∷ xs) ys (b ∷ front) a rest e = elim (append_split xs ys front a rest (cc)) [
  | inl (mid, p, q) ↦ inl (mid, cc, q)
  | inr (mid, p, q) ↦ inr (mid, cc, q)
]

All-middle {ℓ κ} :
    {A : Type ℓ} (P : A → Type κ) (front : List A) (a : A) (rest : List A)
    → All P (front ++ a ∷ rest)
    → P a
All-middle P [] a rest h = h.0
All-middle P (x ∷ front) a rest h = All-middle P front a rest h.1

-- The search gives the file, a write replaces it among the owner's files, and one under its own path keeps
-- what is to be kept of the owner.
abbrev pub Replaces :
    {A : Type 0}
    → (A → List SharFile)
    → (A → Type 0)
    → Option (Borrow A)
    → List SharFile
    → SharFile
    → List SharFile
    → Type 0
Replaces {A} all Keeps found front f rest =
    (back : SharFile → A) × (found ≡ some (f, back))
    × ((g : SharFile) → all (back g) ≡ front ++ g ∷ rest)
    × ((g : SharFile) → g.file_path ≡ f.file_path → Keeps (back g))

-- Still under the path, and no path is taken that was free.
abbrev pub KeepsFiles : PathBuf → List SharFile → List SharFile → Type 0
KeepsFiles name fs fs' =
    FilesUnder name fs'
    × ((p : PathBuf) → All (λ g. g.file_path ≢ p) fs → All (λ g. g.file_path ≢ p) fs')

pub find_sub_file-finds :
    (name : PathBuf) (n : String) (f : SharFile) (rest front : List SharFile)
    → FilesUnder name (front ++ f ∷ rest)
    → f.file_path ≡ name ++ n ∷ []
    → Replaces
        (λ fs. fs)
        (KeepsFiles name (front ++ f ∷ rest))
        (find_sub_file (front ++ f ∷ rest) n)
        front
        f
        rest
unfolding find_sub_file
find_sub_file-finds name n f rest [] own path =
    let hit : ends_with f.file_path n ≡ true =
      ap (λ p. ends_with p n) path ∙ ends_with-last name n n ∙ beq_self n in
    (
      λ g. g ∷ rest,
      rw hit refl,
      λ g. refl,
      λ g same_path. (
        (
          (n, same_path ∙ path),
          subst (λ p. All (λ h. h.file_path ≢ p) rest) (sym same_path) own.1,
          own.2,
        ),
        λ p apart. (λ e. apart.0 (sym same_path ∙ e), apart.1),
      ),
    )
find_sub_file-finds name n f rest (x ∷ front) ((m, px), distinct, own) path =
    let (back, found, writes, keeps) = find_sub_file-finds name n f rest front own path in
    elim (Bool-cases (string_eq.beq m n)) [
      | inl same_name ↦ absurd (
          All-middle (λ g. g.file_path ≢ x.file_path) front f rest distinct
            (path ∙ ap (λ c. name ++ c ∷ []) (sym ((string_eq.beq_iff m n).0 same_name)) ∙ sym px))
      | inr later ↦
          let miss : ends_with x.file_path n ≡ false =
            ap (λ p. ends_with p n) px ∙ ends_with-last name m n ∙ later in
          (
            λ g. x ∷ back g,
            rw miss (ap (reborrow (◌∷◌ x)) found),
            λ g. ap (◌∷◌ x) (writes g),
            λ g same_path.
                let kept = keeps g same_path in
                (
                  ((m, px), kept.1 x.file_path distinct, kept.0),
                  λ p apart. (apart.0, kept.1 p apart.1),
                ),
          )
    ]
