-- ===== src/Server/Request.antt =====
-- What the server has read when it stops reading.
use mathlib.Core.List.{append_assoc, append-nil}
use contract_conformance_tes.Base.{
  ◌≡◌, ◌≢◌, ◌↔◌, ◌⊎◌, inl, inr, refl, sym, ap, ◌∙◌, true, Bool-cases, none, some, List, [], ◌∷◌,
  ◌++◌, All, Any, any_iff, Text, text_eq, text_eq_iff, is_empty, is_empty_iff, Holds, arith,
}
use contract_conformance_tes.Server.{windows, head_end, is_complete, read_request}

windows_sound : (s : Text) (t : Text) → Any (λ w. w ≡ t) (windows s) → Holds s t
unfolding windows
windows_sound (a ∷ (b ∷ (c ∷ (d ∷ s)))) t (inl e) = ([], s, ap (λ l. l ++ s) e)
windows_sound (a ∷ (b ∷ (c ∷ (d ∷ s)))) t (inr m) =
    let (before, after, e) = windows_sound (b ∷ (c ∷ (d ∷ s))) t m in
    (a ∷ before, after, ap (λ l. a ∷ l) e)
windows_sound [] t h = absurd h
windows_sound (a ∷ []) t h = absurd h
windows_sound (a ∷ (b ∷ [])) t h = absurd h
windows_sound (a ∷ (b ∷ (c ∷ []))) t h = absurd h

windows-cons : (P : Text → Type 0) (a : _) (s : Text) → Any P (windows s) → Any P (windows (a ∷ s))
unfolding windows
windows-cons P a (b ∷ (c ∷ (d ∷ (e ∷ s)))) h = inr h
windows-cons P a (b ∷ (c ∷ (d ∷ []))) h = absurd h
windows-cons P a (b ∷ (c ∷ [])) h = absurd h
windows-cons P a (b ∷ []) h = absurd h
windows-cons P a [] h = absurd h

windows_complete :
    (before after : Text) → Any (λ w. w ≡ head_end) (windows (before ++ (head_end ++ after)))
windows_complete [] after = unfold windows in inl refl
windows_complete (a ∷ before) after =
    windows-cons (λ w. w ≡ head_end) a (before ++ (head_end ++ after))
      (windows_complete before after)

-- A window of four bytes is the end of the head exactly if the request holds that end.
is_complete_iff : (s : Text) → (is_complete s ≡ true) ↔ Holds s head_end
unfolding is_complete
is_complete_iff s =
    let (to, from) =
      any_iff (λ w. w ≡ head_end) (λ w. text_eq w head_end) (λ w. text_eq_iff w head_end)
        (windows s) in
    (
      (λ h. windows_sound s head_end (to h)),
      λ (before, after, e). from (rw e (windows_complete before after)),
    )

-- What stands in a text stands in the text with more behind it.
Holds-append : (s more t : Text) → Holds s t → Holds (s ++ more) t
Holds-append s more t (before, after, e) = (
  before,
  after ++ more,
  rw (e, append_assoc before (t ++ after) more, append_assoc t after more) refl,
)

-- The bytes of the reads in order.
abbrev pub concat : List Text → Text
concat [] = []
concat (chunk ∷ chunks) = chunk ++ concat chunks

-- The stream is open: no read has returned its end.
abbrev pub IsOpen : List Text → Type 0
IsOpen chunks = All (λ c. c ≢ []) chunks

module _ (request chunk : Text) (chunks : List Text) where
  read_request_go :
      chunk ≢ []
      → ¬ Holds (request ++ chunk) head_end
      → read_request request (chunk ∷ chunks) ≡ read_request (request ++ chunk) chunks
  unfolding read_request
  read_request_go full partial =
      ground (arith, is_empty_iff chunk, is_complete_iff (request ++ chunk))

  read_request_waiting :
      read_request request (chunk ∷ chunks) ≡ none
      → (chunk ≢ []) × (¬ Holds (request ++ chunk) head_end)
  unfolding read_request
  read_request_waiting h = (
    (λ e. ground (arith, is_empty_iff chunk)),
    λ complete. ground (arith, is_complete_iff (request ++ chunk)),
  )

waits_sound :
    (request : Text) (chunks : List Text)
    → ¬ Holds request head_end
    → read_request request chunks ≡ none
    → IsOpen chunks × (¬ Holds (request ++ concat chunks) head_end)
waits_sound request [] partial h = (tt, rw (append-nil request) partial)
waits_sound request (chunk ∷ chunks) partial h =
    let (full, still) = read_request_waiting request chunk chunks h in
    let (open_stream, later) =
      waits_sound (request ++ chunk) chunks still
        (rw (read_request_go request chunk chunks full still) at h) in
    ((full, open_stream), rw (← append_assoc request chunk (concat chunks)) later)

waits_complete :
    (request : Text) (chunks : List Text)
    → IsOpen chunks
    → ¬ Holds (request ++ concat chunks) head_end
    → read_request request chunks ≡ none
unfolding read_request
waits_complete request [] open_stream partial = refl
waits_complete request (chunk ∷ chunks) (full, open_stream) partial =
    let later = rw (← append_assoc request chunk (concat chunks)) at partial in
    let still : ¬ Holds (request ++ chunk) head_end =
      λ h. later (Holds-append (request ++ chunk) (concat chunks) head_end h) in
    rw (read_request_go request chunk chunks full still)
      (waits_complete (request ++ chunk) chunks open_stream later)

nothing : ¬ Holds [] head_end
unfolding is_complete windows
nothing h = let full : is_complete [] ≡ true = (is_complete_iff []).1 h in cc

-- The server goes on reading exactly while the stream is open and the bytes that have come, in
-- however many reads, do not hold the end of a head.
pub read_request-IsOpen :
    (chunks : List Text)
    → (read_request [] chunks ≡ none) ↔ (IsOpen chunks × (¬ Holds (concat chunks) head_end))
read_request-IsOpen chunks = (
  waits_sound [] chunks nothing,
  λ (open_stream, partial). waits_complete [] chunks open_stream partial,
)

-- A request that was read: the bytes of the first reads, up to one that completes the head or to
-- the end of the stream, and of no fewer reads.
pub record IsRead (start : Text) (chunks : List Text) (request : Text) : Type 0 where
  pub taken : List Text
  pub rest : List Text
  pub parts : chunks ≡ taken ++ rest
  pub content : request ≡ start ++ concat taken
  pub ended : Holds request head_end ⊎ ((later : List Text) × (rest ≡ [] ∷ later))
  pub first :
      (xs : List Text) (y : Text) (ys : List Text)
      → taken ≡ xs ++ (y ∷ ys)
      → read_request start xs ≡ none

module _ (start chunk : Text) (chunks : List Text) where
  IsRead-closed : chunk ≡ [] → IsRead start (chunk ∷ chunks) start
  IsRead-closed e = record {
    taken = [];
    rest = chunk ∷ chunks;
    parts = refl;
    content = sym (append-nil start);
    ended = inr (chunks, ap (λ c. c ∷ chunks) e);
    first = elim [ [] ↦ λ y ys k. absurd (cc k) | x ∷ xs ↦ λ y ys k. absurd (cc k) ];
  }

  IsRead-complete : Holds (start ++ chunk) head_end → IsRead start (chunk ∷ chunks) (start ++ chunk)
  unfolding read_request
  IsRead-complete h = record {
    taken = chunk ∷ [];
    rest = chunks;
    parts = refl;
    content = ap (λ c. start ++ c) (sym (append-nil chunk));
    ended = inl h;
    first = elim [
      | [] ↦ λ y ys k. refl
      | x ∷ [] ↦ λ y ys k. absurd (ground arith)
      | x ∷ (x' ∷ xs) ↦ λ y ys k. absurd (ground arith)
    ];
  }

  IsRead-more :
      (request : Text)
      → chunk ≢ []
      → ¬ Holds (start ++ chunk) head_end
      → IsRead (start ++ chunk) chunks request
      → IsRead start (chunk ∷ chunks) request
  unfolding read_request
  IsRead-more request full partial r = record {
    taken = chunk ∷ r.taken;
    rest = r.rest;
    parts = ap (λ l. chunk ∷ l) r.parts;
    content = r.content ∙ append_assoc start chunk (concat r.taken);
    ended = r.ended;
    first = elim [
      | [] ↦ λ y ys k. refl
      | x ∷ xs ↦ λ y ys k.
          let same : chunk ≡ x = ground arith in
          rw (← same, read_request_go start chunk xs full partial) (r.first xs y ys (ground arith))
    ];
  }

read_request_from :
    (start : Text) (chunks : List Text) (request : Text)
    → read_request start chunks ≡ some request
    → IsRead start chunks request
unfolding read_request
read_request_from start [] request h = absurd (cc h)
read_request_from start (chunk ∷ chunks) request h = elim (Bool-cases (is_empty chunk)) [
  | inl closed ↦
      let same : start ≡ request = ground arith in
      rw (← same) (IsRead-closed start chunk chunks ((is_empty_iff chunk).0 closed))
  | inr full ↦ elim (Bool-cases (is_complete (start ++ chunk))) [
    | inl complete ↦
        let same : start ++ chunk ≡ request = ground arith in
        rw (← same)
          (IsRead-complete start chunk chunks ((is_complete_iff (start ++ chunk)).0 complete))
    | inr partial ↦
        IsRead-more start chunk chunks request (λ e. ground (arith, is_empty_iff chunk))
          (λ complete. ground (arith, is_complete_iff (start ++ chunk)))
          (read_request_from (start ++ chunk) chunks request (ground arith))
  ]
]

-- What the server takes for the request is the bytes of the first reads in order: up to the read
-- that completes a head, or up to the end of the stream. On fewer reads it would still wait.
pub read_request-IsRead :
    (chunks : List Text) (request : Text)
    → read_request [] chunks ≡ some request
    → IsRead [] chunks request
read_request-IsRead chunks request h = read_request_from [] chunks request h
