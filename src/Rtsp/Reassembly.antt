-- ===== src/Rtsp/Reassembly.antt =====
-- rtsp_server.cpp (server/src/server): which bytes of a connection become one message.
use mathlib.Core.List.{append_assoc, append-nil}
use steamos_containerized.Common.{
  Option-cases, length, take, drop, Text, ℕ, zero, suc, ◌+◌, ◌^◌, ◌≤◌, ◌<◌, ◌≡◌, refl, ap, inl, inr,
  true, some, [], ◌∷◌, ◌++◌, arith, ltb, if◌then◌else◌, length-append, text, ◌-◌, List, sym, subst,
  ◌∙◌,
}
use steamos_containerized.Common.Int.{pos}
use steamos_containerized.StdLib.{StdLib}
use steamos_containerized.Rtsp.Packet.{crlf}
use steamos_containerized.Rtsp.Socket.{
  starts_with, find_text, length_key, total_length, announced_total, resize, Buffer, more, message,
  receive_read, receive_reads, read_on, empty_buffer,
}

starts_with-append :
    (pat t u : Text) → length pat ≤ length t → starts_with pat (t ++ u) ≡ starts_with pat t
unfolding starts_with
starts_with-append [] t u h = refl
starts_with-append (p ∷ pat) [] u h = ground arith
starts_with-append (p ∷ pat) (c ∷ t) u h = rw (starts_with-append pat t u (omega arith)) refl

starts_with-length : (pat t : Text) → starts_with pat t ≡ true → length pat ≤ length t
unfolding starts_with
starts_with-length [] t h = omega arith
starts_with-length (p ∷ pat) [] h = cc h
starts_with-length (p ∷ pat) (c ∷ t) h = ground (arith, starts_with-length pat t)

find_text-length : (pat t : Text) (i : ℕ) → find_text pat t ≡ some i → i + length pat ≤ length t
unfolding find_text
find_text-length pat [] i e = cc e
find_text-length pat (c ∷ t) i e = elim (Option-cases (find_text pat t)) [
  | inl n ↦ ground (arith, starts_with-length pat (c ∷ t))
  | inr (j, f) ↦ ground (arith, starts_with-length pat (c ∷ t), find_text-length pat t j f)
]

find_text-append :
    (pat t u : Text) (i : ℕ) → find_text pat t ≡ some i → find_text pat (t ++ u) ≡ some i
unfolding find_text
find_text-append pat [] u i e = cc e
find_text-append pat (c ∷ t) u i e =
    let same = starts_with-append pat (c ∷ t) u (omega (arith, find_text-length pat (c ∷ t) i e)) in
    elim (Option-cases (find_text pat t)) [
      | inl n ↦ ground (arith, same)
      | inr (j, f) ↦ ground (arith, same, find_text-append pat t u j f)
    ]

drop-append : (n : ℕ) (t u : Text) → n ≤ length t → drop n (t ++ u) ≡ drop n t ++ u
drop-append zero t u h = refl
drop-append (suc n) [] u h = ground arith
drop-append (suc n) (c ∷ t) u h = drop-append n t u (omega arith)

take-append : (n : ℕ) (t u : Text) → n ≤ length t → take n (t ++ u) ≡ take n t
take-append zero t u h = refl
take-append (suc n) [] u h = ground arith
take-append (suc n) (c ∷ t) u h = ap (◌∷◌ c) (take-append n t u (omega arith))

take_all : (t : Text) → take (length t) t ≡ t
take_all [] = refl
take_all (c ∷ t) = ap (◌∷◌ c) (take_all t)

sub_self : (n : ℕ) → n - n ≡ 0
sub_self n = omega arith

length_key-length : length length_key ≡ 16
unfolding text
length_key-length = refl

resize_same : (t : Text) (n : ℕ) → n ≡ length t → resize n t ≡ t
unfolding resize
resize_same t n e = rw (e, take_all t, sub_self (length t)) (append-nil t)

-- The text holds a whole Content-length line, which with the bytes up to its end makes `n`.
pub record HasLength (lib : StdLib) (t : Text) (n : ℕ) : Type 0 where
  pub p : ℕ
  pub k : ℕ
  pub value : ℕ
  pub key : find_text length_key t ≡ some p
  pub line_end : find_text crlf (drop (p + 16) t) ≡ some k
  pub number : lib.stoi (take k (drop (p + 16) t)) ≡ some (pos value)
  pub total : n ≡ value + (p + 16 + k) + 2
  pub small : n < 2 ^ 64

HasLength-announced :
    (lib : StdLib) (t u : Text) (n : ℕ)
    → HasLength lib t n
    → announced_total lib (t ++ u) ≡ total_length n
unfolding announced_total
HasLength-announced lib t u n h =
    let rest = drop (p + 16) t in
    let key_fits = find_text-length length_key t p key in
    let line_fits = find_text-length crlf rest k line_end in
    let cut = drop-append (p + 16) t u (omega (arith, key_fits, length_key-length)) in
    let line = take-append k rest u (omega (arith, line_fits)) in
    rw (find_text-append length_key t u p key, cut, find_text-append crlf rest u k line_end)
      (rw (cut, line, number) (ap total_length (omega (arith, total, small))))
  where
    open h use {p, k, value, key, line_end, number, total, small}

-- The pieces, one after another.
unfoldable pub flat : List Text → Text
flat [] = []
flat (c ∷ cs) = c ++ flat cs

-- The buffer that holds this text.
abbrev pub holding : Text → Buffer
holding t = record { prev_read = t; prev_read_bytes = length t }

module _ (lib : StdLib) (n : ℕ) where
  -- Whatever follows the text, the total is known.
  abbrev Known : Text → Type 0
  Known t = (u : Text) → announced_total lib (t ++ u) ≡ total_length n

  Known-append : (t u : Text) → Known t → Known (t ++ u)
  Known-append t u h v = rw (append_assoc t u v) (h (u ++ v))

  receive_read_counted :
      (t raw : Text)
      → Known (t ++ raw)
      → receive_read lib raw (holding t)
        ≡ (if ltb (length (t ++ raw)) n then more (holding (t ++ raw)) else message (t ++ raw))
  unfolding receive_read
  receive_read_counted t raw h =
      let known =
        subst (λ x. announced_total lib x ≡ total_length n) (append-nil (t ++ raw)) (h []) in
      let bytes = length-append t raw in
      rw (resize_same (t ++ raw) (length t + length raw) (sym bytes), known, bytes) refl

  last_read :
      (t d : Text)
      → Known (t ++ d)
      → n ≤ length (t ++ d)
      → receive_read lib d (holding t) ≡ message (t ++ d)
  last_read t d h enough = ground (arith, receive_read_counted t d h)

  next_read :
      (t c : Text)
      → Known (t ++ c)
      → length (t ++ c) < n
      → receive_read lib c (holding t) ≡ more (holding (t ++ c))
  next_read t c h few = ground (arith, receive_read_counted t c h)

  -- All but the last read of a message: the buffer holds them.
  waits :
      (cs : List Text) (t : Text)
      → Known t
      → length (t ++ flat cs) < n
      → receive_reads lib cs (holding t) ≡ more (holding (t ++ flat cs))
  unfolding receive_reads flat
  waits [] t h few = ap (λ x. more (holding x)) (sym (append-nil t))
  waits (c ∷ cs) t h few =
      let grown = append_assoc t c (flat cs) in
      let few' = subst (λ x. length x < n) (sym grown) few in
      let known = Known-append t c h in
      ap (read_on (receive_reads lib cs))
        (next_read t c known (omega (arith, few', length-append (t ++ c) (flat cs))))
      ∙ waits cs (t ++ c) known few'
      ∙ ap (λ x. more (holding x)) grown

  gather :
      (cs : List Text) (t d : Text)
      → Known t
      → length (t ++ flat cs) < n
      → n ≤ length (t ++ flat (cs ++ d ∷ []))
      → receive_reads lib (cs ++ d ∷ []) (holding t) ≡ message (t ++ flat (cs ++ d ∷ []))
  unfolding receive_reads flat
  gather [] t d h few enough =
      ap (read_on (receive_reads lib [])) (
        last_read t d (Known-append t d h) (subst (λ x. n ≤ length (t ++ x)) (append-nil d) enough))
      ∙ ap (λ x. message (t ++ x)) (sym (append-nil d))
  gather (c ∷ cs) t d h few enough =
      let grown = append_assoc t c (flat cs) in
      let grown' = append_assoc t c (flat (cs ++ d ∷ [])) in
      let few' = subst (λ x. length x < n) (sym grown) few in
      let known = Known-append t c h in
      ap (read_on (receive_reads lib (cs ++ d ∷ [])))
        (next_read t c known (omega (arith, few', length-append (t ++ c) (flat cs))))
      ∙ gather cs (t ++ c) d known few' (subst (λ x. n ≤ length x) (sym grown') enough)
      ∙ ap message grown'

-- If the first read holds a whole Content-length line, the reads of a connection become one message,
-- the bytes of all of them in order, with the first read that brings the total to the announced one,
-- which is the number of the line, the bytes up to its end and two more; before that nothing is
-- passed on, and the buffer holds all that was read.
pub receive_reads_gathers :
    (lib : StdLib) (n : ℕ) (c : Text) (cs : List Text) (d : Text)
    → HasLength lib c n
    → length (flat (c ∷ cs)) < n
    → (receive_reads lib (c ∷ cs) empty_buffer ≡ more (holding (flat (c ∷ cs))))
      × (n ≤ length (flat (c ∷ cs ++ d ∷ []))
          → receive_reads lib (c ∷ cs ++ d ∷ []) empty_buffer ≡ message (flat (c ∷ cs ++ d ∷ [])))
unfolding receive_reads flat
receive_reads_gathers lib n c cs d h few =
    let first = next_read lib n [] c (known h) (omega (arith, few, length-append c (flat cs))) in
    (
      ap (read_on (receive_reads lib cs)) first ∙ waits lib n cs c (known h) few,
      λ enough.
          ap (read_on (receive_reads lib (cs ++ d ∷ []))) first
          ∙ gather lib n cs c d (known h) few enough,
    )
  where
    known : HasLength lib c n → (u : Text) → announced_total lib (c ++ u) ≡ total_length n
    known h u = HasLength-announced lib c u n h
