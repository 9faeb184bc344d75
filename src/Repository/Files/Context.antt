-- ===== src/Repository/Files/Context.antt =====
-- How long the collected text can be.
use automated_workflow.Prelude.{
  ℕ, zero, suc, ◌+◌, ◌-◌, ◌≤◌, ◌<◌, String, not, ◌||◌, Option, none, some, List, [], ◌∷◌, ◌≡◌, inl,
  inr, arith, str_append,
}
use automated_workflow.Prelude.Tests.{leb, Bool-cases}
use automated_workflow.Prelude.Table.{All, any_where}
use automated_workflow.Prelude.Text.{text_length, first_chars}
use text.Mathlib.TextLemmas.{nil-append, cons-append}
use automated_workflow.Repository.Files.{
  Candidate, heading, chunk_of, collect_chunks, with_content, joined, collect_context, same_path,
}

length-append : (s t : String) → text_length (str_append s t) ≡ text_length s + text_length t
length-append String.[] t = rw (nil-append t) (omega arith)
length-append (String.◌∷◌ c s) t = rw (cons-append c s t) (omega (arith, length-append s t))

length-first_chars : (n : ℕ) (s : String) → text_length (first_chars n s) ≤ n
unfolding first_chars
length-first_chars zero s = omega arith
length-first_chars (suc n) String.[] = omega arith
length-first_chars (suc n) (String.◌∷◌ c s) = omega (arith, length-first_chars n s)

chunk_bound :
    (c : Candidate) (content : String) (n h : ℕ)
    → text_length (heading c) ≤ h
    → text_length (chunk_of c content n) ≤ h + n
chunk_bound c content n h l =
    omega
      (arith, length-append (heading c) (first_chars n content), length-first_chars n content, l)

-- The heading of every candidate is at most `h` characters long.
abbrev pub HasHeadings : ℕ → List Candidate → Type 0
HasHeadings h cs = All (λ (c : Candidate). text_length (heading c) ≤ h) cs

content_bound :
    (m h total : ℕ) (c : Candidate) (o : Option String) (next : ℕ → List String)
    → text_length (heading c) ≤ h
    → ((t : ℕ) → t ≤ m + h → t + text_length (joined (next t)) ≤ m + h)
    → total ≤ m + h
    → total + text_length (joined (with_content m total c o next)) ≤ m + h
unfolding joined
content_bound m h total c none next k a l = a total l
content_bound m h total c (some content) next k a l = elim (Bool-cases (leb m total)) [
  | inl s ↦ rw s (omega (arith, l))
  | inr s ↦
      let chunk : String = chunk_of c content (m - total) in
      let len : text_length chunk ≤ h + (m - total) = chunk_bound c content (m - total) h k in
      let below : total < m = ground (arith, s) in
      let rest = a (total + text_length chunk) (omega (arith, len, below)) in
      rw s (omega (arith, rest, length-append chunk (joined (next (total + text_length chunk)))))
]

chunks_bound :
    (m h : ℕ) (used : List (List String)) (total : ℕ) (cs : List Candidate)
    → HasHeadings h cs
    → total ≤ m + h
    → total + text_length (joined (collect_chunks m used total cs)) ≤ m + h
unfolding collect_chunks joined
chunks_bound m h used total [] a l = omega (arith, l)
chunks_bound m h used total (c ∷ cs) a l =
    elim (Bool-cases (any_where (same_path c.path) used || not c.is_text)) [
      | inl s ↦ rw s (chunks_bound m h used total cs a.1 l)
      | inr s ↦ rw s (
          content_bound m h total c c.content (λ t. collect_chunks m (c.path ∷ used) t cs) a.0
            (λ t b. chunks_bound m h (c.path ∷ used) t cs a.1 b) l)
    ]

-- The collected context is at most as long as the limit and the longest heading of a file: the
-- last file is cut to the characters that remain, its heading is not.
pub context_bound :
    (max_chars h : ℕ) (candidates : List Candidate)
    → HasHeadings h candidates
    → text_length (collect_context max_chars candidates) ≤ max_chars + h
unfolding collect_context
context_bound m h cs a = omega (arith, chunks_bound m h [] 0 cs a (omega arith))
