-- ===== src/Media/Destination.antt =====
-- media.cpp (server/src/server): where the datagrams of a sink go.
use steamos_containerized.Common.{
  if◌then◌else◌, ℕ, ◌≡◌, refl, sym, ap, ◌∙◌, Option, none, some, List, [], ◌∷◌, ◌++◌, map, arith,
  ◌==◌, ==_iff, Bool-cases, inl, inr, true,
}
use steamos_containerized.Common.Int.{ℤ, pos, leb_ℤ}
use steamos_containerized.Media.{
  Addr, UdpSink, Datagram, send, Buffer, Sample, no_sample, buffer_list, one_buffer, no_buffer,
  push_buffer, push_buffers, on_new_sample, on_datagram, drop_client, SinkStep, sampled, received,
  retargeted, sink_step, sink_steps,
}

-- The client that was heard last, and not dropped since.
abbrev pub hears : Option Addr → SinkStep → Option Addr
hears o (sampled x) = o
hears o (received n from) = if leb_ℤ n (pos 0) then o else some from
hears o retargeted = none

-- The bytes of the buffers of a sample that can be mapped.
abbrev pub mapped : List Buffer → List (List ℕ)
mapped [] = []
mapped (none ∷ bs) = mapped bs
mapped (some bytes ∷ bs) = bytes ∷ mapped bs

abbrev pub contents : Sample → List (List ℕ)
contents no_sample = []
contents (buffer_list bs) = mapped bs
contents (one_buffer b) = mapped (b ∷ [])
contents no_buffer = []

abbrev pub address_to : Option Addr → List (List ℕ) → List Datagram
address_to none all = []
address_to (some a) all = map (λ bytes. (a, bytes)) all

abbrev pub told : Option Addr → SinkStep → List Datagram
told o (sampled x) = address_to o (contents x)
told o (received n from) = []
told o retargeted = []

-- What is sent, by the pings and the samples alone.
abbrev pub told_all : Option Addr → List SinkStep → List Datagram
told_all o [] = []
told_all o (x ∷ xs) = told o x ++ told_all (hears o x) xs

abbrev pub client_of : UdpSink → Option Addr
client_of s = if s.have_client then some s.dest else none

append_nil : {A : Type 0} (xs : List A) → xs ++ [] ≡ xs
append_nil [] = refl
append_nil (x ∷ xs) = ap (λ l. x ∷ l) (append_nil xs)

client_of-push_buffer :
    (b : Buffer) (s : UdpSink)
    → (client_of (push_buffer b s).0 ≡ client_of s)
      × ((push_buffer b s).1 ≡ address_to (client_of s) (mapped (b ∷ [])))
unfolding push_buffer send
client_of-push_buffer none s = (refl, ground arith)
client_of-push_buffer (some bytes) s = (refl, ground arith)

address_to-append :
    (o : Option Addr) (xs ys : List (List ℕ))
    → address_to o (xs ++ ys) ≡ address_to o xs ++ address_to o ys
address_to-append none xs ys = refl
address_to-append (some a) [] ys = refl
address_to-append (some a) (x ∷ xs) ys = ap (λ l. (a, x) ∷ l) (address_to-append (some a) xs ys)

mapped-cons : (b : Buffer) (bs : List Buffer) → mapped (b ∷ bs) ≡ mapped (b ∷ []) ++ mapped bs
mapped-cons none bs = refl
mapped-cons (some bytes) bs = refl

client_of-push_buffers :
    (bs : List Buffer) (s : UdpSink)
    → (client_of (push_buffers bs s).0 ≡ client_of s)
      × ((push_buffers bs s).1 ≡ address_to (client_of s) (mapped bs))
unfolding push_buffers
client_of-push_buffers [] s = (refl, ground arith)
client_of-push_buffers (b ∷ bs) s =
    let first = client_of-push_buffer b s in
    let rest = client_of-push_buffers bs (push_buffer b s).0 in
    (
      rest.0 ∙ first.0,
      (λ i. first.1 i ++ (rest.1 ∙ ap (λ o. address_to o (mapped bs)) first.0) i)
          ∙ sym (address_to-append (client_of s) (mapped (b ∷ [])) (mapped bs))
          ∙ ap (address_to (client_of s)) (sym (mapped-cons b bs)),
    )

same_addr : (a b : Addr) → (a.s_addr == b.s_addr) ≡ true → (a.sin_port == b.sin_port) ≡ true → a ≡ b
same_addr a b p q =
    let ip = (==_iff a.s_addr b.s_addr).0 p in
    let port = (==_iff a.sin_port b.sin_port).0 q in
    λ i. record { s_addr = ip i; sin_port = port i }

client_of-on_datagram :
    (n : ℤ) (from : Addr) (s : UdpSink)
    → client_of (on_datagram n from s) ≡ hears (client_of s) (received n from)
unfolding on_datagram
client_of-on_datagram n from s = elim (Bool-cases (s.have_client)) [
  | inr f ↦ ground arith
  | inl t ↦ elim (Bool-cases (s.dest.s_addr == from.s_addr)) [
    | inr a ↦ ground arith
    | inl a ↦ elim (Bool-cases (s.dest.sin_port == from.sin_port)) [
      | inr b ↦ ground arith
      | inl b ↦ ground (arith, same_addr s.dest from a b)
    ]
  ]
]

sink_step-told :
    (x : SinkStep) (s : UdpSink)
    → (client_of (sink_step x s).0 ≡ hears (client_of s) x)
      × ((sink_step x s).1 ≡ told (client_of s) x)
unfolding sink_step on_new_sample drop_client
sink_step-told (sampled no_sample) s = (refl, ground arith)
sink_step-told (sampled (buffer_list bs)) s = client_of-push_buffers bs s
sink_step-told (sampled (one_buffer b)) s = client_of-push_buffer b s
sink_step-told (sampled no_buffer) s = (refl, ground arith)
sink_step-told (received n from) s = (client_of-on_datagram n from s, refl)
sink_step-told retargeted s = (refl, refl)

-- Whatever the order in which buffers are pulled, datagrams arrive and resumes drop the client, the
-- datagrams sent are those of every buffer that can be mapped, in order and unchanged, each to the
-- address that was heard last, if one was heard since the last drop, and to nobody otherwise.
pub sink_steps-told_all :
    (xs : List SinkStep) (s : UdpSink) → (sink_steps xs s).1 ≡ told_all (client_of s) xs
unfolding sink_steps
sink_steps-told_all [] s = refl
sink_steps-told_all (x ∷ xs) s =
    let now = sink_step-told x s in
    λ i. now.1 i ++ (sink_steps-told_all xs (sink_step x s).0 ∙ ap (λ o. told_all o xs) now.0) i
