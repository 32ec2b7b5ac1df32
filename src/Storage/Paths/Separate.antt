-- ===== src/Storage/Paths/Separate.antt =====
-- src/app/storage/paths.py: the files of different jobs have keys under different prefixes.
use Prim.Native.Nat.{◌+◌, ◌-◌, ◌*◌, ◌/◌, ◌%◌}
use Prim.Native.Char.{code}
use Prim.Native.String.append
use Prim.Native.String.{[], ◌∷◌, ◌++◌, char_at}
use kyrgstudio.Base.{
  ℕ, zero, suc, String, ◌≡◌, ◌<◌, sym, ◌∙◌, ap, true, false, ◌==◌, ltb, arith, ◌≤◌, ◌⊎◌, inl, inr,
  Bool-cases, if◌then◌else◌,
}
use kyrgstudio.Base.Decimal.{digit, decimal_from, decimal}
use kyrgstudio.Base.Decimal.Laws.{code-digit}
use kyrgstudio.Storage.Paths.{job_prefix, job_input_key, job_audio_key, safe_suffix}

-- The number before the next slash.
read : ℕ → String → ℕ
read acc [] = acc
read acc (c ∷ s) =
    let rest = read (acc * 10 + (code c - 48)) s in if code c == 47 then acc else rest

-- The string after as many characters as there are in the first one.
skip : String → String → String
skip [] s = s
skip (c ∷ p) [] = []
skip (c ∷ p) (d ∷ s) = skip p s

skip-append : (p t : String) → skip p (p ++ t) ≡ t
unfolding skip
skip-append [] t = append.nil t
skip-append (c ∷ p) t = rw append.cons (skip-append p t)

append_assoc : (a b c : String) → (a ++ b) ++ c ≡ a ++ (b ++ c)
append_assoc [] b c = rw (append.nil b, append.nil (b ++ c))
append_assoc (x ∷ a) b c =
    rw (append.cons x a b, append.cons x (a ++ b) c, append.cons x a (b ++ c), append_assoc a b c)

read-digit : (acc n : ℕ) (s : String) → n < 10 → read acc (digit n ∷ s) ≡ read (acc * 10 + n) s
unfolding read
read-digit acc n s h = ground (arith, code-digit n h)

ltb-lt : (a b : ℕ) → ltb a b ≡ true → a < b
ltb-lt a b h = ground arith

not_ltb : (a b : ℕ) → ltb a b ≡ false → b ≤ a
not_ltb a b h = ground arith

read-decimal_from :
    (fuel n : ℕ) (rest s : String)
    → n < fuel
    → read 0 (decimal_from fuel n rest ++ s) ≡ read n (rest ++ s)
unfolding decimal_from
read-decimal_from zero n rest s h = absurd (omega (arith, h))
read-decimal_from (suc fuel) n rest s h = elim (Bool-cases (ltb n 10)) [
  | inl small ↦
      rw (small, append.cons)
        (read-digit 0 n (rest ++ s) (ltb-lt n 10 small)
          ∙ ap (λ (k : ℕ). read k (rest ++ s)) (omega arith))
  | inr large ↦
      rw
        (
          large,
          read-decimal_from fuel (n / 10) (digit (n % 10) ∷ rest) s
              (omega (arith, h, not_ltb n 10 large)),
          append.cons,
          read-digit (n / 10) (n % 10) (rest ++ s) (omega arith),
        )
        (ap (λ (k : ℕ). read k (rest ++ s)) (omega arith))
]

read-slash : (acc : ℕ) (s : String) → read acc ("/" ++ s) ≡ acc
unfolding read
read-slash acc s = ap (read acc) (append.cons (char_at "/" 0) [] s)

-- The job's number is what stands between the first slash of a key under its prefix and the next.
read-job_prefix : (i : ℕ) (s : String) → read 0 (skip "jobs/" (job_prefix i ++ s)) ≡ i
unfolding job_prefix decimal
read-job_prefix i s =
    rw
      (
        append_assoc "jobs/" (decimal_from (i + 1) i [] ++ "/") s,
        skip-append "jobs/" ((decimal_from (i + 1) i [] ++ "/") ++ s),
        append_assoc (decimal_from (i + 1) i []) "/" s,
      )
      (read-decimal_from (i + 1) i [] ("/" ++ s) (omega arith)
        ∙ (ap (read i) (append.nil ("/" ++ s)) ∙ read-slash i s))

prefix_separates :
    (i j : ℕ) (name rest : String) → job_prefix j ++ name ≡ job_prefix i ++ rest → i ≡ j
prefix_separates i j name rest same =
    sym (read-job_prefix i rest)
    ∙ (ap (λ (s : String). read 0 (skip "jobs/" s)) (sym same) ∙ read-job_prefix j name)

-- A key of an input or audio file of a job that begins with the prefix of a job is a key of that
-- same job, so the deletion of one job's prefix deletes no file of another.
pub job_keys_separate :
    (i j : ℕ) (filename rest : String)
    → (job_input_key j filename ≡ job_prefix i ++ rest) ⊎ (job_audio_key j ≡ job_prefix i ++ rest)
    → i ≡ j
unfolding job_input_key job_audio_key
job_keys_separate i j filename rest (inl same) =
    prefix_separates i j ("input" ++ safe_suffix filename) rest same
job_keys_separate i j filename rest (inr same) = prefix_separates i j "audio.wav" rest same
