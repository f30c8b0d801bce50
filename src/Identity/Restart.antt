-- ===== src/Identity/Restart.antt =====
-- state.cpp (server/src/server): what a start of the server keeps of the identity on disk, and what
-- the next start finds.
use steamos_containerized.Common.{
  not, ◌⊎◌, none, Bool-cases, is_some, sym, List, text, is_empty, ℕ, ◌≡◌, refl, true, false, List,
  [], ◌∷◌, arith, inr, if◌then◌else◌, ◌≢◌, inl, ◌&&◌, some, In, Text, ap, ◌∙◌, subst,
}
use steamos_containerized.Common.Assoc.{insert}
use steamos_containerized.Pairing.State.{AppState, add_paired_client}
use steamos_containerized.Identity.Clients.{In-load_clients, In-erase}
use steamos_containerized.Identity.{
  File, read_file, InitError, no_directory, no_listing, xor, finish_init, init_identity,
  pkey_from_file, cert_from_file, Disk, Host, file_ok, fill_uuid, gen_uuid, load_uuid, load_all,
  init, Library, Started, write_to_disk, inconsistent_identity, load_clients,
}

-- What generates an identity gives texts that are not empty, and the uuid was put on disk.
pub record Persists (h : Host) : Type 0 where
  pub key : is_empty h.new_key ≡ false
  pub cert : is_empty h.new_cert ≡ false
  pub saved : h.uuid_written ≡ true

-- Both halves of the identity and the uuid are on disk.
record Complete (d : Disk) : Type 0 where
  key : file_ok d.key_pem ≡ true
  cert : file_ok d.cert_pem ≡ true
  uuid : file_ok d.uuid_file ≡ true

gen_uuid_filled : (ds : List ℕ) → is_empty (gen_uuid ds) ≡ false
unfolding gen_uuid fill_uuid text
gen_uuid_filled [] = refl
gen_uuid_filled (d ∷ ds) = refl

-- What `init` loads from the disk, when nothing throws.
loaded : Library → Host → Disk → Started × Disk
loaded lib h d =
    load_all lib h (lib.read_private_key (read_file d.key_pem))
      (lib.read_certificate (read_file d.cert_pem)) d

-- The host makes no step of a start on a whole identity throw.
pub record Works (h : Host) : Type 0 where
  pub directories : h.makes_directories ≡ true
  pub listing : h.lists_clients ≡ true
  pub key_opens : h.opens_key ≡ true
  pub cert_opens : h.opens_cert ≡ true

module _ (lib : Library) (h : Host) where
  load-Complete :
      (d : Disk)
      → Persists h
      → file_ok d.key_pem ≡ true
      → file_ok d.cert_pem ≡ true
      → Complete (loaded lib h d).1
  unfolding loaded load_all load_uuid file_ok
  load-Complete d p k c = ground (arith, gen_uuid_filled h.draws)

-- The start reads what it finds.
abbrev Same : Started → Started → Type 0
Same s t = (s.pairing ≡ t.pairing) × (s.uuid ≡ t.uuid)

file_ok-is_some : (f : File) → file_ok f ≡ true → is_some f ≡ true
unfolding file_ok
file_ok-is_some none e = cc e
file_ok-is_some (some t) e = refl

module _ (lib : Library) (h h' : Host) where
  load_again :
      (d : Disk) → Persists h → Same (loaded lib h' (loaded lib h d).1).0 (loaded lib h d).0
  unfolding loaded load_all load_uuid file_ok
  load_again d p = ground (arith, gen_uuid_filled h.draws)

  load_uuid_again : (d : Disk) → file_ok d.uuid_file ≡ true → (loaded lib h' d).1 ≡ d
  unfolding loaded load_all load_uuid
  load_uuid_again d u = rw u refl

  finish_reads :
      (d : Disk)
      → Works h'
      → file_ok d.key_pem ≡ true
      → file_ok d.cert_pem ≡ true
      → finish_init lib h' (d, true) ≡ (inr (loaded lib h' d).0, (loaded lib h' d).1)
  unfolding pkey_from_file cert_from_file loaded
  finish_reads d w k c =
      rw (w.key_opens, w.cert_opens, file_ok-is_some d.key_pem k, file_ok-is_some d.cert_pem c) refl

  init_reads : (d : Disk) → Works h' → Complete d → init lib h' d ≡ (inr (loaded lib h' d).0, d)
  unfolding init init_identity loaded
  init_reads d w c =
      rw (w.directories, w.listing, c.key, c.cert)
        (finish_reads d w c.key c.cert
          ∙ ap (λ x. (inr (loaded lib h' d).0, x)) (load_uuid_again d c.uuid))

-- The disk that a start loads, if its writes succeed.
loaded_from : Host → Disk → Disk
loaded_from h d =
    if file_ok d.key_pem && file_ok d.cert_pem
    then d
    else record d { key_pem = some h.new_key; cert_pem = some h.new_cert }

loaded_from_ok :
    (h : Host) (d : Disk)
    → Persists h
    → (file_ok (loaded_from h d).key_pem ≡ true) × (file_ok (loaded_from h d).cert_pem ≡ true)
unfolding loaded_from file_ok
loaded_from_ok h d p = (ground arith, ground arith)

finish_init-loaded :
    (lib : Library) (h : Host) (d : Disk) {s : Started}
    → (finish_init lib h (d, true)).0 ≡ inr s
    → finish_init lib h (d, true) ≡ (inr (loaded lib h d).0, (loaded lib h d).1)
unfolding pkey_from_file cert_from_file loaded
finish_init-loaded lib h d e = elim (Bool-cases (h.opens_key && is_some d.key_pem)) [
  | inr f ↦ absurd (ground (arith, f, e))
  | inl t ↦ elim (Bool-cases (h.opens_cert && is_some d.cert_pem)) [
    | inr f ↦ absurd (ground (arith, f, t, e))
    | inl u ↦ rw (t, u) refl
  ]
]

init_finishes :
    (lib : Library) (h : Host) (d : Disk) {s : Started}
    → (init lib h d).0 ≡ inr s
    → init lib h d ≡ finish_init lib h (loaded_from h d, true)
unfolding init init_identity write_to_disk loaded_from
init_finishes lib h d e = ground arith

init-loaded :
    (lib : Library) (h : Host) (d : Disk) {s : Started}
    → (init lib h d).0 ≡ inr s
    → init lib h d ≡ (inr (loaded lib h (loaded_from h d)).0, (loaded lib h (loaded_from h d)).1)
init-loaded lib h d {s} e =
    let same = init_finishes lib h d e in
    same ∙ finish_init-loaded lib h (loaded_from h d) (ap (λ x. x.0) (sym same) ∙ e)

started_from :
    (lib : Library) (h : Host) (d : Disk) {s : Started}
    → (init lib h d).0 ≡ inr s
    → (loaded lib h (loaded_from h d)).0 ≡ s
started_from lib h d e = cc (e, init-loaded lib h d e)

-- When a start returns, the generated texts are not empty and the uuid could be written, then a later
-- start returns too, if its host makes the directories, lists the clients and opens the key and the
-- certificate, whatever else it answers; and it leaves the disk as it is, and has the same key,
-- certificate, trusted clients and uuid.
pub init_again :
    (lib : Library) (h h' : Host) (d : Disk) (s : Started)
    → Persists h
    → Works h'
    → (init lib h d).0 ≡ inr s
    → (s' : Started) × (init lib h' (init lib h d).1 ≡ (inr s', (init lib h d).1))
      × (s'.pairing ≡ s.pairing)
      × (s'.uuid ≡ s.uuid)
init_again lib h h' d s p w e =
    let from = loaded_from h d in
    let ok = loaded_from_ok h d p in
    let first = init-loaded lib h d e in
    let again = load_again lib h h' from p in
    let next = init_reads lib h h' (loaded lib h from).1 w (load-Complete lib h from p ok.0 ok.1) in
    let same = started_from lib h d e in
    (
      (loaded lib h' (loaded lib h from).1).0,
      rw first next,
      again.0 ∙ ap (λ x. x.pairing) same,
      again.1 ∙ ap (λ x. x.uuid) same,
    )

-- A file with something in it; and no file, or an empty one.
abbrev pub Filled : File → Type 0
Filled f = (a : ℕ) × (t : Text) × (f ≡ some (a ∷ t))

abbrev pub Absent : File → Type 0
Absent f = (f ≡ none) ⊎ (f ≡ some [])

-- What was there is there unchanged.
abbrev pub Stays : File → File → Type 0
Stays before after = Absent before ⊎ (after ≡ before)

-- Both halves of an identity, or neither, or the start throws and changes nothing.
abbrev pub WholeOrThrows : Library → Host → Disk → Type 0
WholeOrThrows lib h d =
    (Filled d.key_pem × Filled d.cert_pem)
    ⊎ ((Absent d.key_pem × Absent d.cert_pem)
        ⊎ ((error : InitError) × (init lib h d ≡ (inl error, d))))

file_ok-cases : (f : File) → ((file_ok f ≡ true) × Filled f) ⊎ ((file_ok f ≡ false) × Absent f)
unfolding file_ok
file_ok-cases none = inr (refl, inl refl)
file_ok-cases (some []) = inr (refl, inr refl)
file_ok-cases (some (a ∷ t)) = inl (refl, (a, t, refl))

Stays-ok : (before after : File) → (file_ok before ≡ true → after ≡ before) → Stays before after
Stays-ok before after same = elim (file_ok-cases before) [
  | inl (ok, filled) ↦ inr (same ok)
  | inr (missing, absent) ↦ inl absent
]

half_throws :
    (lib : Library) (h : Host) (d : Disk)
    → h.allow_new ≡ false
    → xor (file_ok d.key_pem) (file_ok d.cert_pem) ≡ true
    → (error : InitError) × (init lib h d ≡ (inl error, d))
unfolding init init_identity
half_throws lib h d n x = elim (Bool-cases h.makes_directories) [
  | inr f ↦ rw f (no_directory, refl)
  | inl t ↦ rw t (elim (Bool-cases h.lists_clients) [
    | inr f ↦ rw f (no_listing, refl)
    | inl u ↦ rw (u, x, n) (inconsistent_identity, refl)
  ])
]

whole_or_throws :
    (lib : Library) (h : Host) (d : Disk) → h.allow_new ≡ false → WholeOrThrows lib h d
whole_or_throws lib h d n = elim (file_ok-cases d.key_pem) [
  | inl (k, key) ↦ elim (file_ok-cases d.cert_pem) [
    | inl (c, cert) ↦ inl (key, cert)
    | inr (c, cert) ↦
        inr (inr (half_throws lib h d n (ap (λ b. xor b (file_ok d.cert_pem)) k ∙ ap not c)))
  ]
  | inr (k, key) ↦ elim (file_ok-cases d.cert_pem) [
    | inl (c, cert) ↦ inr (inr (half_throws lib h d n (ap (λ b. xor b (file_ok d.cert_pem)) k ∙ c)))
    | inr (c, cert) ↦ inr (inl (key, cert))
  ]
]

files_kept :
    (lib : Library) (h : Host) (d : Disk)
    → ((init lib h d).1.clients_dir ≡ d.clients_dir)
      × (h.allow_new ≡ false
          → (file_ok d.key_pem ≡ true → (init lib h d).1.key_pem ≡ d.key_pem)
            × (file_ok d.cert_pem ≡ true → (init lib h d).1.cert_pem ≡ d.cert_pem)
            × (file_ok d.uuid_file ≡ true → (init lib h d).1.uuid_file ≡ d.uuid_file))
unfolding init init_identity write_to_disk load_all load_uuid pkey_from_file cert_from_file
files_kept lib h d = (ground arith, λ n. (ground arith, ground arith, ground arith))

-- No start touches the files of the paired clients. Unless a new identity is allowed, none changes a
-- key, a certificate or a uuid whose file is on disk and not empty; and a start that finds one of key
-- and certificate, the other one missing or empty, throws and changes nothing.
pub stored_identity_kept :
    (lib : Library) (h : Host) (d : Disk)
    → ((init lib h d).1.clients_dir ≡ d.clients_dir)
      × ((h.allow_new ≡ true)
          ⊎ (Stays d.key_pem (init lib h d).1.key_pem
              × (Stays d.cert_pem (init lib h d).1.cert_pem
                  × (Stays d.uuid_file (init lib h d).1.uuid_file × WholeOrThrows lib h d))))
stored_identity_kept lib h d =
    let (clients, kept) = files_kept lib h d in
    (
      clients,
      elim (Bool-cases h.allow_new) [
        | inl a ↦ inl a
        | inr n ↦ inr (
          Stays-ok d.key_pem (init lib h d).1.key_pem (kept n).0,
          (
            Stays-ok d.cert_pem (init lib h d).1.cert_pem (kept n).1,
            (Stays-ok d.uuid_file (init lib h d).1.uuid_file (kept n).2, whole_or_throws lib h d n),
          ),
        )
      ],
    )

loaded_clients :
    (lib : Library) (h : Host) (d : Disk)
    → (loaded lib h (loaded_from h d)).0.pairing.paired_clients
      ≡ load_clients lib.extension d.clients_dir
unfolding loaded loaded_from load_all
loaded_clients lib h d = ground arith

started_clients :
    (lib : Library) (h : Host) (d : Disk) {s : Started}
    → (init lib h d).0 ≡ inr s
    → load_clients lib.extension d.clients_dir ≡ s.pairing.paired_clients
started_clients lib h d e =
    sym (loaded_clients lib h d) ∙ ap (λ x. x.pairing.paired_clients) (started_from lib h d e)

-- A client's file, which ends in .pem and is not empty, is that of a client that was just trusted and
-- written to the directory of a running server, or was there before under another name. After any
-- start on that directory that returns, the client is trusted.
pub paired_after_restart :
    (lib : Library) (h : Host) (file_name : Text → Text) (new name pem : Text) (st : AppState)
    (d : Disk) (s : Started)
    → ((name ≡ file_name new) × (pem ≡ new))
      ⊎ ((name ≢ file_name new) × In (name, pem) st.clients_dir)
    → lib.extension name ≡ text ".pem"
    → is_empty pem ≡ false
    → (init lib h
        (record d { clients_dir = (add_paired_client file_name true new st).clients_dir })).0
      ≡ inr s
    → In pem s.pairing.paired_clients
unfolding add_paired_client insert
paired_after_restart lib h file_name new name pem st d s there x n e =
    let dir = (add_paired_client file_name true new st).clients_dir in
    let found : In (name, pem) dir = elim there [
      | inl (a, b) ↦ inl (λ i. (a i, b i))
      | inr (ne, m) ↦ inr (In-erase (file_name new) name pem st.clients_dir ne m)
    ] in
    subst (In pem) (started_clients lib h (record d { clients_dir = dir }) e)
      (In-load_clients lib.extension name pem dir x n found)
