-- ===== src/Queue/Letters.antt =====
-- GetDLQ (internal/queue/redis.go): a page of the dead letters, the newest first.
use distributed_task_schedul.Errors.{Error, foreign, Result, ok, err, ◌>>=◌, wrap, wrap_err}
use distributed_task_schedul.Queue.Redis.{Codec, Redis, dlq, contains}
use distributed_task_schedul.Prelude.{
  List, Option, ℕ, ℤ, ◌∷◌, none, some, [], wrap64, ◌+ℤ◌, negsuc, if◌then◌else◌, length, ◌==◌, take,
  ◌+◌, ◌≡◌, suc, true, ◌<◌, ==-suc_zero, drop, map, Option-cases, int64_half, refl, arith, inl, pos,
  ==_refl, inr, wrap64-pos, Bool-cases, ap, ==_iff,
}
use distributed_task_schedul.Models.Job.{Job}

-- What the pipeline of GETs reports: the error of its first command that fails, a missing text
-- included.
abbrev pub nil_reply : Error
nil_reply = foreign "redis: nil"

module _ (c : Codec) (r : Redis c.Blob) where
  open r use {State, get, lrange, items}

  -- The replies of the GETs, or the error of the pipeline.
  unfoldable pub fetch_texts : State → List ℕ → Result (List c.Blob)
  fetch_texts s [] = ok []
  fetch_texts s (id ∷ ids) = elim (get s id) [
    | none ↦ err nil_reply
    | some text ↦ do texts ← fetch_texts s ids; ok (text ∷ texts)
  ]

  -- A text that is no job is left out.
  unfoldable pub decode_texts : List c.Blob → List Job
  decode_texts [] = []
  decode_texts (text ∷ texts) = elim (c.unmarshal text) [
    | none ↦ decode_texts texts
    | some j ↦ j ∷ decode_texts texts
  ]

  unfoldable pub read_letters : State → List ℕ → Result (List Job)
  unfolding decode_texts fetch_texts
  read_letters s keys = do
    texts ← wrap_err "get dlq job data" (fetch_texts s keys)
    ok (decode_texts texts)

  -- `scan` and `pipe` are the failures of LRANGE and of the pipeline as a whole; the end of the
  -- range is computed on an int64.
  unfoldable pub get_dlq :
      (scan pipe : Option Error) → (limit offset : ℤ) → State → Result (List Job)
  unfolding read_letters
  get_dlq (some e) pipe limit offset s = err (wrap "get dlq keys" e)
  get_dlq none pipe limit offset s =
      let keys = lrange s dlq offset (wrap64 (offset +ℤ limit +ℤ negsuc 0)) in
      if length keys == 0
      then ok []
      else elim pipe [ some e ↦ err (wrap "get dlq job data" e) | none ↦ read_letters s keys ]

  -- The page that the range of GetDLQ has: n + 1 jobs from the offset on.
  abbrev page_of : (n offset : ℕ) → State → List ℕ
  page_of n offset s = take (suc n) (drop offset (items s dlq))

  fetch_texts-jobs :
      (s : State) (ids : List ℕ) (job : ℕ → Job)
      → ((id : ℕ)
          → contains ids id ≡ true
          → (b : c.Blob) × (get s id ≡ some b) × (c.unmarshal b ≡ some (job id)))
      → (texts : List c.Blob) × (fetch_texts s ids ≡ ok texts) × (decode_texts texts ≡ map job ids)
  unfolding fetch_texts decode_texts contains
  fetch_texts-jobs s [] job h = ([], refl, refl)
  fetch_texts-jobs s (id ∷ ids) job h =
      let (b, e, u) = h id (ground (arith, ==_refl id)) in
      let (texts, f, m) = fetch_texts-jobs s ids job (λ i p. h i (ground arith)) in
      (b ∷ texts, rw (fetch_texts, e, f) refl, rw (decode_texts, u, m) refl)

  fetch_texts-missing :
      (s : State) (ids : List ℕ) (id : ℕ)
      → contains ids id ≡ true
      → get s id ≡ none
      → fetch_texts s ids ≡ err nil_reply
  unfolding fetch_texts contains
  fetch_texts-missing s [] id h e = cc
  fetch_texts-missing s (i ∷ ids) id h e = elim (Option-cases (get s i)) [
    | inl n ↦ rw (fetch_texts, n) refl
    | inr (b, g) ↦ elim (Bool-cases (i == id)) [
      | inl same ↦ cc (g, e, ap (get s) ((==_iff i id).0 same))
      | inr other ↦ rw (fetch_texts, g, fetch_texts-missing s ids id (ground arith) e) refl
    ]
  ]

  stop_in_range :
      (n offset : ℕ)
      → offset + n < int64_half
      → wrap64 (pos offset +ℤ pos (suc n) +ℤ negsuc 0) ≡ pos (offset + n)
  unfolding ◌+ℤ◌
  stop_in_range n offset h =
      let stop : pos offset +ℤ pos (suc n) +ℤ negsuc 0 ≡ pos (offset + n) = ground arith in
      rw stop (wrap64-pos (offset + n) h)

  letters_or_none :
      (s : State) (keys : List ℕ)
      → ◌≡◌ {A = Result (List Job)}
          (if length keys == 0 then ok [] else read_letters s keys)
          (read_letters s keys)
  unfolding read_letters fetch_texts decode_texts
  letters_or_none s [] = refl
  letters_or_none s (x ∷ xs) = rw (==-suc_zero (length xs))

  get_dlq-run :
      (n offset : ℕ) (s : State)
      → offset + n < int64_half
      → get_dlq none none (pos (suc n)) (pos offset) s ≡ read_letters s (page_of n offset s)
  unfolding get_dlq
  get_dlq-run n offset s h =
      rw (get_dlq, stop_in_range n offset h, r.lrange-items s dlq offset n)
        (letters_or_none s (page_of n offset s))

  -- GetDLQ with a limit of n + 1 shows that many of the dead letters from the offset on, in their order, where all their texts can be read and decoded; but if a single text of the page is missing, it answers with an error.
  pub get_dlq-page :
      (n offset : ℕ) (s : State)
      → offset + n < int64_half
      → let page = take (suc n) (drop offset (items s dlq)) in
        let answer = get_dlq none none (pos (suc n)) (pos offset) s in
        ((job : ℕ → Job)
          → ((id : ℕ)
              → contains page id ≡ true
              → (b : c.Blob) × (get s id ≡ some b) × (c.unmarshal b ≡ some (job id)))
          → answer ≡ ok (map job page))
        × ((id : ℕ)
            → contains page id ≡ true
            → get s id ≡ none
            → answer ≡ err (wrap "get dlq job data" nil_reply))
  unfolding read_letters
  get_dlq-page n offset s h =
      let page = page_of n offset s in
      (
        λ job ready.
            let (texts, f, m) = fetch_texts-jobs s page job ready in
            rw (get_dlq-run n offset s h, read_letters, f, m) refl,
        λ id p e.
            rw (get_dlq-run n offset s h, read_letters, fetch_texts-missing s page id p e) refl,
      )
