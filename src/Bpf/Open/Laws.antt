-- ===== src/Bpf/Open/Laws.antt =====
-- The buffer and the select set under `int_create_bpf` of src/interfaces.c.
use ecmh.Prelude.{
  ℕ, zero, suc, ◌≤◌, ◌<◌, ◌≡◌, refl, inl, inr, Bool, true, not, ◌&&◌, ◌||◌, ltb, Option, none, some,
  List, [], ◌∷◌, All, set, get_or, arith, Bool-cases, Option-cases,
}
use ecmh.Bpf.{BpfInt, BpfConf, bpf_at, bpf_zero, put_bpf}
use ecmh.Bpf.Locals.{int_find_ipv4}
use ecmh.Bpf.Open.{
  BpfSys, Created, created, exited, max, fd_set, set_blen, set_dlt, with_socket, find_master,
  int_create_bpf, is_supported,
}

-- `bufferlen` is the size of the buffer that the configuration has, the length of every interface's
-- reads is at most that, and `select` looks at every descriptor of the set.
pub record IsBuffered (c : BpfConf) : Type 0 where
  pub sized : c.bufferlen ≡ c.buffer.size
  pub fits : All (λ (i : BpfInt). i.bufferlen ≤ c.buffer.size) c.ints
  pub seen : All (λ (fd : ℕ). fd ≤ c.hifd) c.selectset

abbrev pub Ensures : (BpfConf → Type 0) → Created → Type 0
Ensures P (created ok c) = P c
Ensures P exited = Unit

module _ {A : Type 0} (P : A → Type 0) where
  All-set : (xs : List A) (p : ℕ) (v : A) → All P xs → P v → All P (set xs p v)
  All-set [] p v h hv = tt
  All-set (x ∷ xs) zero v h hv = (hv, h.1)
  All-set (x ∷ xs) (suc p) v h hv = (h.0, All-set xs p v h.1 hv)

  All-get_or : (xs : List A) (p : ℕ) (d : A) → All P xs → P d → P (get_or xs p d)
  All-get_or [] p d h hd = hd
  All-get_or (x ∷ xs) zero d h hd = h.0
  All-get_or (x ∷ xs) (suc p) d h hd = All-get_or xs p d h.1 hd

-- A larger bound.
All-le :
    {A : Type 0} (f : A → ℕ) (m n : ℕ) (xs : List A)
    → m ≤ n
    → All (λ (x : A). f x ≤ m) xs
    → All (λ (x : A). f x ≤ n) xs
All-le f m n [] h a = tt
All-le f m n (x ∷ xs) h a = (omega (arith, h, a.0), All-le f m n xs h a.1)

abbrev len_of : BpfInt → ℕ
len_of i = i.bufferlen

-- An interface is written whose reads fit.
put_bpf-IsBuffered :
    (c : BpfConf) (p : ℕ) (i : BpfInt)
    → IsBuffered c
    → i.bufferlen ≤ c.buffer.size
    → IsBuffered (put_bpf c p i)
put_bpf-IsBuffered c p i v h = record {
  sized = v.sized;
  fits = All-set (λ (x : BpfInt). x.bufferlen ≤ c.buffer.size) c.ints p i v.fits h;
  seen = v.seen;
}

at-fits : (c : BpfConf) (p : ℕ) → IsBuffered c → (bpf_at c.ints p).bufferlen ≤ c.buffer.size
at-fits c p v =
    All-get_or (λ (x : BpfInt). x.bufferlen ≤ c.buffer.size) c.ints p bpf_zero v.fits (omega arith)

fd_set-IsBuffered : (fd : ℕ) (c : BpfConf) → IsBuffered c → Ensures IsBuffered (fd_set fd c)
fd_set-IsBuffered fd c v = record {
  sized = v.sized;
  fits = v.fits;
  seen = (
    ground arith,
    All-le (λ (x : ℕ). x) c.hifd (max c.hifd fd) c.selectset (ground arith) v.seen,
  );
}

module _ (s : BpfSys) (p : ℕ) where
  set_blen-IsBuffered :
      (fd : ℕ) (c : BpfConf) (o : Option ℕ)
      → IsBuffered c
      → Ensures IsBuffered (set_blen s p fd c o)
  set_blen-IsBuffered fd c none v = v
  set_blen-IsBuffered fd c (some blen) v =
      let i = record (bpf_at c.ints p) { bufferlen = blen } in
      elim (Bool-cases (ltb c.bufferlen blen)) [
        | inl small ↦ elim (Option-cases s.memory) [
          | inl no_memory ↦ rw (small, no_memory) tt
          | inr (address, memory) ↦
              let c' = record c {
                buffer = record { address = address; size = blen };
                bufferlen = blen;
              } in
              let below : c.bufferlen < blen = ground arith in
              let wide : IsBuffered c' = record {
                sized = refl;
                fits =
                    All-le len_of c.buffer.size blen c.ints (omega (arith, v.sized, below)) v.fits;
                seen = v.seen;
              } in
              rw (small, memory)
                (fd_set-IsBuffered fd _ (put_bpf-IsBuffered c' p i wide (omega arith)))
        ]
        | inr large ↦
            rw large (fd_set-IsBuffered fd _ (put_bpf-IsBuffered c p i v (ground (arith, v.sized))))
      ]

  set_dlt-IsBuffered :
      (fd : ℕ) (c : BpfConf) (o : Option ℕ) → IsBuffered c → Ensures IsBuffered (set_dlt s p fd c o)
  set_dlt-IsBuffered fd c none v = v
  set_dlt-IsBuffered fd c (some dlt) v =
      let kept =
        put_bpf-IsBuffered c p (record (bpf_at c.ints p) { dlt = dlt }) v (at-fits c p v) in
      elim (Bool-cases (is_supported dlt)) [
        | inl good ↦ rw good (set_blen-IsBuffered fd _ s.blen kept)
        | inr bad ↦ rw bad kept
      ]

  with_socket-IsBuffered :
      (c : BpfConf) (o : Option ℕ) → IsBuffered c → Ensures IsBuffered (with_socket s p c o)
  with_socket-IsBuffered c none v = v
  with_socket-IsBuffered c (some fd) v =
      let kept =
        put_bpf-IsBuffered c p (record (bpf_at c.ints p) { socket = some fd }) v (at-fits c p v) in
      elim (Bool-cases (s.setif && (not c.promisc || s.promisc) && s.nonblock && s.immediate)) [
        | inl good ↦ rw good (set_dlt-IsBuffered fd _ s.dlt kept)
        | inr bad ↦ rw bad kept
      ]

  find_master-IsBuffered :
      (c : BpfConf) (o : Option (ℕ × ℕ)) → IsBuffered c → Ensures IsBuffered (find_master p c o)
  find_master-IsBuffered c none v = v
  find_master-IsBuffered c (some (src, dst)) v = elim (Option-cases (int_find_ipv4 true src c)) [
    | inl absent ↦ rw absent (put_bpf-IsBuffered c p _ v (at-fits c p v))
    | inr (q, there) ↦ rw there (put_bpf-IsBuffered c p _ v (at-fits c p v))
  ]

  -- If a call, which may succeed or fail half-way, does not end the program: when `bufferlen` was
  -- the size of the buffer of the configuration, the read length of every interface was at most
  -- that size and no descriptor of the select set was above `hifd`, this is so again behind the
  -- call, for the buffer that the configuration then has. Whether a reader still uses the old one
  -- is not said.
  pub int_create_bpf-IsBuffered :
      (tunnel : Bool) (c : BpfConf)
      → IsBuffered c
      → Ensures IsBuffered (int_create_bpf s p tunnel c)
  unfolding int_create_bpf
  int_create_bpf-IsBuffered tunnel c v = elim (Bool-cases (not c.tunnelmode || not tunnel)) [
    | inl native ↦ rw native (with_socket-IsBuffered c _ v)
    | inr through ↦ elim (Bool-cases s.socket) [
      | inl ok ↦ rw (through, ok) (find_master-IsBuffered c s.laddr v)
      | inr failed ↦ rw (through, failed) v
    ]
  ]
