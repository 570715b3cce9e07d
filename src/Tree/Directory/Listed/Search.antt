-- ===== src/Tree/Directory/Listed/Search.antt =====
-- shar/core/tree.rs, `SharDirectory::find_file`: the search by path in a directory as `read_dir` lists it.
use shario.Prelude.{
  String, Bool, true, false, ◌&&◌, Option, some, List, [], ◌∷◌, ◌++◌, inl, inr, ◌≡◌, ◌≢◌, refl, sym,
  ap, ◌∙◌, arith, string_eq, Bool-cases, subst, append_assoc,
}
use shario.Types.{PathBuf}
use shario.Tree.File.{SharFile}
use shario.Tree.Directory.{
  SharDirectory, Directories, directory, nil, cons, Borrow, find_sub_file, ends_with, dir_name,
  find_in, find_file, find_below, route, is_nil, is_empty, file_name, after_name, reborrow,
}
use shario.Tree.Directory.Loaded.Contents.{files_of, files_below}
use shario.Tree.Directory.Listed.Shape.{
  IsNamedOnce, FilesUnder, NotNamed, IsListed, ListedUnder, Replaces, beq_self, file_name-last,
  after_name-first, ends_with-last, append_split, find_sub_file-finds,
}

and_false : (x : Bool) → (x && false) ≡ false
and_false true = refl
and_false false = refl

is_nil-false :
    (ds : Directories) (front : List SharFile) (f : SharFile) (rest : List SharFile)
    → files_below ds ≡ front ++ f ∷ rest
    → is_nil ds ≡ false
unfolding is_nil files_below
is_nil-false nil [] f rest e = cc
is_nil-false nil (x ∷ front) f rest e = cc
is_nil-false (cons d ds) front f rest e = refl

is_empty-false :
    (files front : List SharFile) (f : SharFile) (rest : List SharFile)
    → files ≡ front ++ f ∷ rest
    → is_empty files ≡ false
unfolding is_empty
is_empty-false [] [] f rest e = cc
is_empty-false [] (x ∷ front) f rest e = cc
is_empty-false (g ∷ files) front f rest e = refl

-- A directory that is not empty looks below its own name.
find_in-routes :
    (name : PathBuf) (dirs : Directories) (files : List SharFile)
    (below : String → Option (Borrow Directories)) (path rest : PathBuf)
    → IsNamedOnce name
    → (is_nil dirs && is_empty files) ≡ false
    → path ≡ name ++ rest
    → find_in name dirs files below path ≡ route name dirs files below rest
unfolding find_in
find_in-routes name dirs files below path rest (base, this, whole, once, normal) filled e =
    let named : file_name name ≡ some this = ap file_name whole ∙ file_name-last base this normal in
    let behind : after_name this path ≡ some rest =
      ap (after_name this) (e ∙ ap (λ p. p ++ rest) whole ∙ append_assoc base (this ∷ []) rest)
      ∙ after_name-first base this rest once in
    rw (filled, named, behind) refl

abbrev pub KeepsListed : PathBuf → SharDirectory → Type 0
KeepsListed name d = IsListed d × (dir_name d ≡ name)

abbrev pub KeepsUnder : PathBuf → Directories → Directories → Type 0
KeepsUnder name ds ds' = ListedUnder name ds' × ((p : PathBuf) → NotNamed p ds → NotNamed p ds')

-- What is found of a file below a directory.
abbrev pub FoundFile : SharDirectory → List SharFile → SharFile → List SharFile → Type 0
FoundFile d front f rest =
    ((c : String) × (cs : PathBuf) × (f.file_path ≡ dir_name d ++ c ∷ cs))
    × Replaces files_of (KeepsListed (dir_name d)) (find_file d f.file_path) front f rest

-- The same below one of several directories, whose name begins the rest of the path.
abbrev pub FoundBelow : PathBuf → Directories → List SharFile → SharFile → List SharFile → Type 0
FoundBelow name ds front f rest =
    (c next : String) × (cs : PathBuf) × (f.file_path ≡ name ++ c ∷ next ∷ cs)
    × ((p : PathBuf) → NotNamed p ds → p ≢ name ++ c ∷ [])
    × Replaces files_below (KeepsUnder name ds) (find_below ds c f.file_path) front f rest

-- A file of a directory's own.
own-FoundFile :
    (name : PathBuf) (dirs : Directories) (files : List SharFile) (f : SharFile)
    (front mid rest : List SharFile)
    → IsListed (directory name dirs files)
    → front ≡ files_below dirs ++ mid
    → files ≡ mid ++ f ∷ rest
    → FoundFile (directory name dirs files) front f rest
unfolding IsListed files_of find_file route
own-FoundFile name dirs files f front mid rest (once, own, below) before e =
    let own' : FilesUnder name (mid ++ f ∷ rest) = subst (FilesUnder name) e own in
    let (n, path) = own_name name mid f rest own' in
    let (back, found, writes, keeps) = find_sub_file-finds name n f rest mid own' path in
    let routed =
      find_in-routes name dirs files (λ next. find_below dirs next f.file_path) f.file_path (n ∷ [])
        once (rw (is_empty-false files mid f rest e) (and_false (is_nil dirs))) path in
    (
      (n, [], path),
      (
        λ g. directory name dirs (back g),
        routed ∙ ap (reborrow (directory name dirs)) (ap (λ fs. find_sub_file fs n) e ∙ found),
        λ g.
            ap (◌++◌ (files_below dirs)) (writes g)
            ∙ sym (append_assoc (files_below dirs) mid (g ∷ rest))
            ∙ ap (λ xs. xs ++ g ∷ rest) (sym before),
        λ g same_path. ((once, (keeps g same_path).0, below), refl),
      ),
    )
  where
    own_name :
        (name : PathBuf) (front : List SharFile) (f : SharFile) (rest : List SharFile)
        → FilesUnder name (front ++ f ∷ rest)
        → (n : String) × (f.file_path ≡ name ++ n ∷ [])
    own_name name [] f rest own = own.0
    own_name name (x ∷ front) f rest own = own_name name front f rest own.2

-- A file below one of a directory's children.
child-FoundFile :
    (name : PathBuf) (dirs : Directories) (files : List SharFile) (f : SharFile)
    (front mid rest : List SharFile)
    → IsListed (directory name dirs files)
    → files_below dirs ≡ front ++ f ∷ mid
    → rest ≡ mid ++ files
    → FoundBelow name dirs front f mid
    → FoundFile (directory name dirs files) front f rest
unfolding IsListed files_of find_file route
child-FoundFile name dirs files f front mid rest (once, own, below) e behind
      (c, next, cs, path, others, (back, found, writes, keeps)) =
    let routed =
      find_in-routes name dirs files (λ next. find_below dirs next f.file_path) f.file_path
        (c ∷ next ∷ cs) once (rw (is_nil-false dirs front f mid e) refl) path in
    (
      (c, next ∷ cs, path),
      (
        λ g. directory name (back g) files,
        routed ∙ ap (reborrow (λ ds. directory name ds files)) found,
        λ g.
            ap (λ xs. xs ++ files) (writes g)
            ∙ append_assoc front (g ∷ mid) files
            ∙ ap (λ xs. front ++ g ∷ xs) (sym behind),
        λ g same_path. ((once, own, (keeps g same_path).0), refl),
      ),
    )

-- A file of the first of several directories.
first-FoundBelow :
    (name : PathBuf) (d : SharDirectory) (ds : Directories) (f : SharFile)
    (front mid rest : List SharFile)
    → ListedUnder name (cons d ds)
    → rest ≡ mid ++ files_below ds
    → FoundFile d front f mid
    → FoundBelow name (cons d ds) front f rest
unfolding ListedUnder files_below find_below
first-FoundBelow name d ds f front mid rest ((n, named), unique, listed, later) behind
      ((c, cs, path), (back, found, writes, keeps)) =
    let hit : ends_with (dir_name d) n ≡ true =
      ap (λ p. ends_with p n) named ∙ ends_with-last name n n ∙ beq_self n in
    (
      n,
      c,
      cs,
      path ∙ ap (λ p. p ++ c ∷ cs) named ∙ append_assoc name (n ∷ []) (c ∷ cs),
      λ p apart e. apart.0 (named ∙ sym e),
      (
        λ g. cons (back g) ds,
        rw hit (ap (reborrow (λ e. cons e ds)) found),
        λ g.
            ap (λ xs. xs ++ files_below ds) (writes g)
            ∙ append_assoc front (g ∷ mid) (files_below ds)
            ∙ ap (λ xs. front ++ g ∷ xs) (sym behind),
        λ g same_path.
            let (listed', same_name) = keeps g same_path in
            (
              (
                (n, same_name ∙ named),
                subst (λ p. NotNamed p ds) (sym same_name) unique,
                listed',
                later,
              ),
              λ p apart. (λ e. apart.0 (sym same_name ∙ e), apart.1),
            ),
      ),
    )

-- A file of a later one.
later-FoundBelow :
    (name : PathBuf) (d : SharDirectory) (ds : Directories) (f : SharFile)
    (front mid rest : List SharFile)
    → ListedUnder name (cons d ds)
    → front ≡ files_of d ++ mid
    → FoundBelow name ds mid f rest
    → FoundBelow name (cons d ds) front f rest
unfolding ListedUnder files_below find_below
later-FoundBelow name d ds f front mid rest ((n, named), unique, listed, later) before
      (c, next, cs, path, others, (back, found, writes, keeps)) =
    elim (Bool-cases (string_eq.beq n c)) [
      | inl same_name ↦ absurd (
          others (dir_name d) unique
            (named ∙ ap (λ x. name ++ x ∷ []) ((string_eq.beq_iff n c).0 same_name)))
      | inr other ↦
          let miss : ends_with (dir_name d) c ≡ false =
            ap (λ p. ends_with p c) named ∙ ends_with-last name n c ∙ other in
          (
            c,
            next,
            cs,
            path,
            λ p apart e. others p apart.1 e,
            (
              λ g. cons d (back g),
              rw miss (ap (reborrow (cons d)) found),
              λ g.
                  ap (◌++◌ (files_of d)) (writes g)
                  ∙ sym (append_assoc (files_of d) mid (g ∷ rest))
                  ∙ ap (λ xs. xs ++ g ∷ rest) (sym before),
              λ g same_path.
                  let (later', apart') = keeps g same_path in
                  (
                    ((n, named), apart' (dir_name d) unique, listed, later'),
                    λ p apart. (apart.0, apart' p apart.1),
                  ),
            ),
          )
    ]

mutual
  unfolding IsListed ListedUnder files_of files_below

  pub listed-FoundFile :
      (d : SharDirectory) (f : SharFile) (front rest : List SharFile)
      → IsListed d
      → files_of d ≡ front ++ f ∷ rest
      → FoundFile d front f rest
  listed-FoundFile (directory name dirs files) f front rest h e =
      elim (append_split (files_below dirs) files front f rest e) [
        | inl (mid, below, behind) ↦
            child-FoundFile name dirs files f front mid rest h below behind
              (listed-FoundBelow name dirs f front mid h.2 below)
        | inr (mid, before, own) ↦ own-FoundFile name dirs files f front mid rest h before own
      ]

  listed-FoundBelow :
      (name : PathBuf) (ds : Directories) (f : SharFile) (front rest : List SharFile)
      → ListedUnder name ds
      → files_below ds ≡ front ++ f ∷ rest
      → FoundBelow name ds front f rest
  listed-FoundBelow name nil f [] rest h e = absurd (ground arith)
  listed-FoundBelow name nil f (x ∷ front) rest h e = absurd (ground arith)
  listed-FoundBelow name (cons d ds) f front rest h e =
      elim (append_split (files_of d) (files_below ds) front f rest e) [
        | inl (mid, own, behind) ↦
            first-FoundBelow name d ds f front mid rest h behind
              (listed-FoundFile d f front mid h.2 own)
        | inr (mid, before, below) ↦
            later-FoundBelow name d ds f front mid rest h before
              (listed-FoundBelow name ds f mid rest h.3 below)
      ]
