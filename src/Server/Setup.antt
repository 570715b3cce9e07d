-- ===== src/Server/Setup.antt =====
-- setup.rs, `setup_benchmark`: the arguments of a benchmark run.
use shario.Prelude.{
  ℕ, zero, suc, ◌+◌, Option, none, some, List, [], ◌∷◌, ◌++◌, ◌≡◌, refl, ap, ◌∙◌, arith, String,
  string_eq, if◌then◌else◌, get_elem?, length, false,
}
use shario.Queue.State.{◌>>=◌}

-- `args.iter().position(|a| a == "--bench-internal")`
unfoldable pub flag_position : List String → Option ℕ
flag_position [] = none
flag_position (a ∷ args) =
    let later = flag_position args >>= λ idx. some (suc idx) in
    if string_eq.beq a "--bench-internal" then some zero else later

-- What a run is started with, if the server is not: `none` is a panic, where the path is missing.
pub data Startup : Type 0 where
  serve : Startup
  replay : String → String → Startup

abbrev pub label_or : Option String → String
label_or none = "bench-internal"
label_or (some label) = label

unfoldable pub setup_benchmark : List String → Option Startup
unfolding flag_position
setup_benchmark args = elim (flag_position args) [
  | none ↦ some serve
  | some idx ↦ get_elem? args (idx + 1) >>= λ trace_path.
      some (replay trace_path (label_or (get_elem? args (idx + 2))))
]

flag_position-behind :
    (before rest : List String)
    → ((a : String) (i : ℕ)
        → get_elem? before i ≡ some a
        → string_eq.beq a "--bench-internal" ≡ false)
    → flag_position (before ++ "--bench-internal" ∷ rest) ≡ some (length before)
unfolding flag_position
flag_position-behind [] rest none_before = refl
flag_position-behind (a ∷ before) rest none_before = rw (none_before a 0 refl) (
    ap (λ o. o >>= λ idx. some (suc idx))
      (flag_position-behind before rest (λ b i e. none_before b (suc i) e)))

get_elem?-behind :
    (before : List String) (flag : String) (rest : List String) (i : ℕ)
    → get_elem? (before ++ flag ∷ rest) (length before + suc i) ≡ get_elem? rest i
get_elem?-behind [] flag rest i = ap (get_elem? (flag ∷ rest)) zero_add
  where
    zero_add : 0 + suc i ≡ suc i
    zero_add = omega arith
get_elem?-behind (a ∷ before) flag rest i =
    ap (get_elem? (a ∷ before ++ flag ∷ rest)) suc_add ∙ get_elem?-behind before flag rest i
  where
    suc_add : suc (length before) + suc i ≡ suc (length before + suc i)
    suc_add = omega arith

-- What stands behind the flag.
abbrev pub asked : List String → Option Startup
asked [] = none
asked (trace_path ∷ []) = some (replay trace_path "bench-internal")
asked (trace_path ∷ label ∷ rest) = some (replay trace_path label)

asked-elements :
    (rest : List String)
    → (get_elem? rest 0 >>= λ p. some (replay p (label_or (get_elem? rest 1)))) ≡ asked rest
asked-elements [] = refl
asked-elements (p ∷ []) = refl
asked-elements (p ∷ label ∷ rest) = refl

-- The first "--bench-internal" among the arguments decides: with nothing behind it the program panics, the next
-- argument is the path of the trace, and the one after it the label, if there is one.
pub setup_benchmark-asked :
    (before rest : List String)
    → ((a : String) (i : ℕ)
        → get_elem? before i ≡ some a
        → string_eq.beq a "--bench-internal" ≡ false)
    → setup_benchmark (before ++ "--bench-internal" ∷ rest) ≡ asked rest
unfolding setup_benchmark
setup_benchmark-asked before rest none_before =
    rw (flag_position-behind before rest none_before, setup_benchmark)
      (ap
          (λ o. o >>= λ p. some (
            replay p
              (label_or (get_elem? (before ++ "--bench-internal" ∷ rest) (length before + 2)))))
          (get_elem?-behind before "--bench-internal" rest 0)
        ∙ ap (λ o. get_elem? rest 0 >>= λ p. some (replay p (label_or o)))
            (get_elem?-behind before "--bench-internal" rest 1)
        ∙ asked-elements rest)
