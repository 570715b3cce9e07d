-- ===== src/Queue/Paths.antt =====
-- shar/core/queue.rs, `to_relative_path` and `to_local_path`.
use shario.Prelude.{some, [], ◌∷◌, ◌++◌, ◌≡◌, refl, ap, ◌∙◌, if◌then◌else◌, string_eq}
use shario.Types.{PathBuf}
use shario.Tree.Directory
use shario.Queue.State.{
  SharQueue, without_dot, below, IsPlain, strip_prefix, to_relative_path, to_local_path,
}

strip_prefix-join : (base path : PathBuf) → strip_prefix base (base ++ path) ≡ some path
unfolding strip_prefix
strip_prefix-join [] path = refl
strip_prefix-join (c ∷ base) path =
    rw ((string_eq.beq_iff c c).1 refl) (strip_prefix-join base path)

to_relative_path-below :
    (q : SharQueue) (path : PathBuf) → to_relative_path q (Directory.root q.tree ++ path) ≡ path
unfolding to_relative_path
to_relative_path-below q path =
    rw (strip_prefix-join (Directory.root q.tree) path, to_relative_path) refl

below-plain : (base path : PathBuf) → without_dot path ≡ path → below base path ≡ base ++ path
below-plain [] path plain = refl
below-plain (b ∷ base) path plain = ap (λ p. b ∷ (base ++ p)) plain

to_local_path-joins :
    (q : SharQueue) (path : PathBuf)
    → IsPlain path
    → to_local_path q path ≡ Directory.root q.tree ++ path
unfolding to_local_path
to_local_path-joins q path (relative, plain) =
    ap (λ b. if b then path else below (Directory.root q.tree) path) relative
    ∙ below-plain (Directory.root q.tree) path plain

-- For a path that begins neither with the root nor with `.`, the path that the network is sent and the
-- path on this replica's disk are each what the other one is turned into.
pub to_relative_path-to_local_path :
    (q : SharQueue) (path : PathBuf)
    → IsPlain path
    → (to_relative_path q (to_local_path q path) ≡ path)
      × (to_local_path q (to_relative_path q (Directory.root q.tree ++ path))
          ≡ Directory.root q.tree ++ path)
to_relative_path-to_local_path q path plain = (
  ap (to_relative_path q) (to_local_path-joins q path plain) ∙ to_relative_path-below q path,
  ap (to_local_path q) (to_relative_path-below q path) ∙ to_local_path-joins q path plain,
)
