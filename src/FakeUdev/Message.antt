-- ===== src/FakeUdev/Message.antt =====
-- fake_udev.cpp (server/src/server): what a subscriber reads from the message of an event.
use steamos_containerized.Common.{
  ◌==◌, if◌then◌else◌, length, take, drop, All, All-append, Text, text, ◌=?◌, ℕ, ◌+◌, ◌*◌, ◌^◌, ◌<◌,
  ◌≡◌, refl, sym, ap, ◌∙◌, false, Option, none, some, List, [], ◌∷◌, ◌++◌, map, arith, ◌/◌, ◌%◌,
}
use steamos_containerized.FakeUdev.{monitor_header, Props, serialize_props, uevent_message}

-- A text without a byte.
abbrev pub Lacks : ℕ → Text → Type 0
Lacks s t = All (λ c. (c == s) ≡ false) t

abbrev in_front : ℕ → List Text → List Text
in_front c [] = (c ∷ []) ∷ []
in_front c (t ∷ ts) = (c ∷ t) ∷ ts

-- The texts that end with a zero byte each.
unfoldable pub split_zero : Text → List Text
split_zero [] = []
split_zero (c ∷ t) = let rest = split_zero t in if c == 0 then [] ∷ rest else in_front c rest

-- What stands before the first `=`, and what stands after it.
unfoldable pub cut_equals : Text → Text × Text
cut_equals [] = ([], [])
cut_equals (c ∷ t) =
    let (key, value) = cut_equals t in if c == 61 then ([], t) else (c ∷ key, value)

abbrev pub read_props : Text → Props
read_props payload = map cut_equals (split_zero payload)

abbrev read32 : Text → ℕ
read32 (a ∷ b ∷ c ∷ d ∷ _) = a + 256 * b + 65536 * c + 16777216 * d
read32 _ = 0

-- A subscriber checks the prefix and goes by the offset and the length that the header gives.
unfoldable pub receive : Text → Option Props
receive msg =
    let off = read32 (drop 16 msg) in
    let len = read32 (drop 20 msg) in
    if take 8 msg =? text "libudev" ++ 0 ∷ []
    then some (read_props (take len (drop off msg)))
    else none

split_zero-append : (t rest : Text) → Lacks 0 t → split_zero (t ++ 0 ∷ rest) ≡ t ∷ split_zero rest
unfolding split_zero
split_zero-append [] rest h = refl
split_zero-append (c ∷ t) rest h = rw (split_zero-append t rest h.1) (rw h.0 refl)

cut_equals-append : (k v : Text) → Lacks 61 k → cut_equals (k ++ 61 ∷ v) ≡ (k, v)
unfolding cut_equals
cut_equals-append [] v h = refl
cut_equals-append (c ∷ k) v h = rw (cut_equals-append k v h.1) (rw h.0 refl)

-- A name has neither a zero byte nor `=`, and a value has no zero byte.
abbrev pub IsPlain : Text × Text → Type 0
IsPlain kv = Lacks 0 kv.0 × (Lacks 61 kv.0 × Lacks 0 kv.1)

append_assoc : (a b c : Text) → (a ++ b) ++ c ≡ a ++ (b ++ c)
append_assoc [] b c = refl
append_assoc (x ∷ a) b c = ap (λ l. x ∷ l) (append_assoc a b c)

read_props-serialize_props :
    (props : Props) → All IsPlain props → read_props (serialize_props props) ≡ props
unfolding serialize_props split_zero
read_props-serialize_props [] h = refl
read_props-serialize_props ((k, v) ∷ props) ((k0, (k61, v0)), h) =
    let item = k ++ 61 ∷ v in
    let whole =
      ap split_zero (sym (append_assoc k (61 ∷ v) (0 ∷ serialize_props props)))
      ∙ split_zero-append item (serialize_props props)
          (All-append (λ c. (c == 0) ≡ false) k (61 ∷ v) k0 (refl, v0)) in
    ap (map cut_equals) whole
    ∙ (λ i. cut_equals-append k v k61 i ∷ read_props-serialize_props props h i)

take_all : (t : Text) → take (length t) t ≡ t
take_all [] = refl
take_all (c ∷ t) = ap (λ l. c ∷ l) (take_all t)

length_read :
    (n : ℕ)
    → n < 4294967296
    → n % 4294967296 % 256
        + 256 * (n % 4294967296 / 256 % 256)
        + 65536 * (n % 4294967296 / 65536 % 256)
        + 16777216 * (n % 4294967296 / 16777216 % 256)
      ≡ n
length_read n lt = omega arith

pub receive-uevent_message :
    (props : Props)
    → All IsPlain props
    → length (serialize_props props) < 2 ^ 32
    → receive (uevent_message props) ≡ some props
unfolding receive uevent_message monitor_header text ◌=?◌
receive-uevent_message props h lt =
    let payload = serialize_props props in
    ap (λ n. some (read_props (take n payload))) (length_read (length payload) lt)
    ∙ ap (λ t. some (read_props t)) (take_all payload)
    ∙ ap some (read_props-serialize_props props h)
