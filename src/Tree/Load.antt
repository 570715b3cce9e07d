-- ===== src/Tree/Load.antt =====
-- shar/core/tree.rs, `SharFile::new` and `add_file`: a file read from disk, character by character.
-- What `read_to_string` gives, a text or the message of its error, is an argument.
pub mod RoundTrip
use shario.Prelude.{ℕ, suc, ◌+◌, ◌%◌, ◌^◌, String, List, [], ◌∷◌, ◌⊎◌, inl, inr, if◌then◌else◌}
use shario.Types.{Result, ok, err, fault, read_fail, PathBuf, Crdt, new_relation}
use shario.Tree.File.{is_line_break, SharFile, root}
use shario.Tree.Insert.{Added, add_crdt}

-- The file with its root sentinel only.
abbrev pub seeded : PathBuf → SharFile
seeded path = record {
  file_path = path;
  characters = (root, new_relation 0 0 0) ∷ [];
  projection = (root ∷ []) ∷ [];
}

-- The node of the next character: ids come from the shared counter, of type u32.
abbrev pub next_id : ℕ → ℕ
next_id counter = (counter + 1) % 2 ^ 32

abbrev pub loaded_crdt : ℕ → ℕ → ℕ → Crdt
loaded_crdt id prev_id c = record { id = id; peer = 0; relation = new_relation c prev_id 0 }

-- The result of an insertion is ignored, but for a panic.
continue {ℓ} : {A : Type ℓ} → Added → (SharFile → Result A) → Result A
continue (f, fault) next = fault
continue (f, ok r) next = next f
continue (f, err e) next = next f

unfoldable pub load_chars : List ℕ → SharFile → ℕ → ℕ → ℕ → Result (SharFile × ℕ)
unfolding continue
load_chars [] f line prev_id counter = ok (f, counter)
load_chars (c ∷ cs) f line prev_id counter =
    continue (add_crdt f line (loaded_crdt (next_id counter) prev_id c)) λ g.
      load_chars cs g (if is_line_break c then line + 1 else line) (next_id counter)
        (next_id counter)

unfoldable pub add_file : PathBuf → List ℕ → ℕ → Result (SharFile × ℕ)
unfolding load_chars
add_file path contents counter = load_chars contents (seeded path) 0 0 counter

unfoldable pub new_file : PathBuf → String ⊎ List ℕ → ℕ → Result (SharFile × ℕ)
unfolding add_file
new_file path (inl message) counter = err (read_fail message)
new_file path (inr contents) counter = add_file path contents counter
