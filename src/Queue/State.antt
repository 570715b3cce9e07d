-- ===== src/Queue/State.antt =====
-- shar/core/queue.rs: the fields of `SharQueue`, its callbacks, paths and backlogs.
-- A handler returns the queue that it leaves, or `none` where it panics or does not end. What a
-- callback is called with is appended to `calls`.
use shario.Prelude.{
  ℕ, ◌+◌, Bool, true, false, Option, none, some, List, [], ◌∷◌, ◌++◌, if◌then◌else◌, string_eq, Eq,
  Identity, length, ◌≤◌, ◌≡◌, refl, arith, length-append,
}
use shario.Types.{Result, ok, PathBuf, NetworkAdd, Remove, NetworkOp, IdeAdd, IdeAddConfirmed}
use shario.HashMap
use shario.HashMap.{HashMap, get-insert}
use shario.Tree.Directory
use shario.Tree.Directory.{SharDirectory}
use shario.Tree.Directory.Load.{Listing, new_directory, and_then}

pub data Call : Type 0 where
  network_added : NetworkAdd → Call
  network_removed : Remove → Call
  ide_add_confirmed : IdeAddConfirmed → Call
  ide_added : NetworkAdd → NetworkAdd → Call
  ide_removed : Remove → Call

pub record SharQueue : Type 0 where
  pub ide_backlog : HashMap Identity (List IdeAdd)
  pub ide_tag_backlog : HashMap ℕ (List IdeAdd)
  pub network_backlog : HashMap Identity (List NetworkOp)
  pub ide_worklist : List IdeAdd
  pub network_worklist : List NetworkOp
  pub tag_identities : HashMap ℕ Identity
  pub peer : ℕ
  pub tree : SharDirectory
  pub counter : ℕ
  -- `is_some` of each callback
  pub network_add_callback : Bool
  pub network_remove_callback : Bool
  pub ide_add_confirm_callback : Bool
  pub ide_add_callback : Bool
  pub ide_remove_callback : Bool
  pub calls : List Call

infixl 5 ◌>>=◌
abbrev pub ◌>>=◌ : {A B : Type 0} → Option A → (A → Option B) → Option B
none >>= f = none
some a >>= f = f a

-- The queue that SharQueue::new builds around the loaded directory.
unfoldable pub new_queue : SharDirectory → ℕ → ℕ → SharQueue
new_queue tree this_peer_id counter = record {
  ide_backlog = [];
  ide_tag_backlog = [];
  network_backlog = [];
  ide_worklist = [];
  network_worklist = [];
  tag_identities = [];
  peer = this_peer_id;
  tree = tree;
  counter = counter;
  network_add_callback = true;
  network_remove_callback = true;
  ide_add_confirm_callback = true;
  ide_add_callback = true;
  ide_remove_callback = true;
  calls = [];
}

-- SharQueue::new, from what the file system answers under the directory.
unfoldable pub open_queue : PathBuf → Listing → ℕ → Result SharQueue
unfolding new_queue
open_queue dir_path listing this_peer_id =
    and_then (new_directory dir_path listing 0)
      λ loaded. ok (new_queue loaded.0 this_peer_id loaded.1)

-- `callback.as_ref().unwrap()` and the call.
unfoldable pub call : Bool → Call → SharQueue → Option SharQueue
call true c q = some (record q { calls = q.calls ++ c ∷ [] })
call false c q = none

abbrev pub is_absolute : PathBuf → Bool
is_absolute [] = false
is_absolute (c ∷ cs) = string_eq.beq c "/"

-- A leading `.` is a component of a path only where nothing stands in front of it.
abbrev pub without_dot : PathBuf → PathBuf
without_dot [] = []
without_dot (c ∷ cs) = if string_eq.beq c "." then cs else c ∷ cs

abbrev pub below : PathBuf → PathBuf → PathBuf
below [] path = path
below (b ∷ base) path = b ∷ (base ++ without_dot path)

-- `PathBuf::join`
abbrev pub join : PathBuf → PathBuf → PathBuf
join base path = if is_absolute path then path else below base path

-- A path that begins neither with the root nor with `.`.
abbrev pub IsPlain : PathBuf → Type 0
IsPlain path = (is_absolute path ≡ false) × (without_dot path ≡ path)

-- `Path::strip_prefix`
unfoldable pub strip_prefix : PathBuf → PathBuf → Option PathBuf
strip_prefix [] path = some path
strip_prefix (b ∷ bs) [] = none
strip_prefix (b ∷ bs) (c ∷ cs) = if string_eq.beq b c then strip_prefix bs cs else none

unfoldable pub to_relative_path : SharQueue → PathBuf → PathBuf
unfolding strip_prefix
to_relative_path q path = elim (strip_prefix (Directory.root q.tree) path) [
  | some p ↦ p
  | none ↦ path
]

unfoldable pub to_local_path : SharQueue → PathBuf → PathBuf
to_local_path q path = join (Directory.root q.tree) path

module _ {K : Type 0} {V : Type 0} ⦃e : Eq K⦄ where
  unfoldable pub waiting : K → HashMap K (List V) → List V
  waiting k m = elim (HashMap.get k m) [ some ops ↦ ops | none ↦ [] ]

  -- `entry(k).or_insert_with(Vec::new).push(op)`
  unfoldable pub push_waiting : K → V → HashMap K (List V) → HashMap K (List V)
  unfolding waiting
  push_waiting k op m = HashMap.insert k (waiting k m ++ op ∷ []) m

-- The operations that wait in a backlog.
unfoldable pub backlog_size {ℓ κ} : {K : Type ℓ} {V : Type κ} → HashMap K (List V) → ℕ
backlog_size [] = 0
backlog_size ((k, ops) ∷ m) = length ops + backlog_size m

-- Inversion of a step that ends.
pub >>=-eq-some :
    {A B : Type 0} (m : Option A) (f : A → Option B) {b : B}
    → (m >>= f) ≡ some b
    → (a : A) × (m ≡ some a) × (f a ≡ some b)
>>=-eq-some none f h = cc
>>=-eq-some (some a) f h = (a, refl, h)

pub bind_assoc :
    {A B C : Type 0} (o : Option A) (f : A → Option B) (g : B → Option C)
    → (o >>= λ a. (f a >>= g)) ≡ ((o >>= f) >>= g)
bind_assoc none f g = refl
bind_assoc (some a) f g = refl

pub bind_ext :
    {A B : Type 0} (o : Option A) (f g : A → Option B)
    → ((a : A) → f a ≡ g a)
    → (o >>= f) ≡ (o >>= g)
bind_ext none f g e = refl
bind_ext (some a) f g e = e a

module _ {K : Type 0} {V : Type 0} ⦃e : Eq K⦄ where
  -- What waits for a key is part of the backlog, and leaves it with the key.
  pub backlog_size-remove :
      (k : K) (m : HashMap K (List V))
      → backlog_size (HashMap.remove k m) + length (waiting k m) ≤ backlog_size m
  unfolding backlog_size waiting HashMap.remove HashMap.get
  backlog_size-remove k [] = omega arith
  backlog_size-remove k ((j, ops) ∷ m) = ground (arith, backlog_size-remove k m)

  pub backlog_size-push :
      (k : K) (op : V) (m : HashMap K (List V))
      → backlog_size (push_waiting k op m) ≤ backlog_size m + 1
  unfolding backlog_size push_waiting HashMap.insert
  backlog_size-push k op m =
      ground (arith, backlog_size-remove k m, length-append (waiting k m) (op ∷ []))

  pub waiting-push :
      (k j : K) (op : V) (m : HashMap K (List V))
      → waiting j (push_waiting k op m)
        ≡ (if e.beq k j then waiting k m ++ op ∷ [] else waiting j m)
  unfolding waiting push_waiting
  waiting-push k j op m = ground (arith, get-insert k j (waiting k m ++ op ∷ []) m)
