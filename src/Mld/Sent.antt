-- ===== src/Mld/Sent.antt =====
-- The checksums of the messages that src/ecmh.c sends by `mld1_send_report` and `mld_send_query`.
use ecmh.Prelude.{
  ◌∙◌, ℕ, ◌+◌, ◌-◌, ◌%◌, ◌^◌, ◌<◌, ◌≡◌, refl, ap, Bool, true, false, List, [], ◌∷◌, ◌++◌, All,
  arith, if◌then◌else◌,
}
use ecmh.Addr.{In6Addr}
use ecmh.Memory.{Memory, memory_of, read_bytes, addr_bytes}
use ecmh.Checksum.{sum_words, sum_odd, ipv6_checksum}
use ecmh.Checksum.Bounds.{covered_sum, ipv6_checksum-verifies, All-HasBytes}
use ecmh.Conf.{Conf, Frame, World, Env, int_at}
use ecmh.Interfaces.{int_destroy}
use ecmh.Send.{sendpacket6, count_icmp_sent, frame_of, ip6_header}
use ecmh.Mld.Query.{
  query_bytes, router_alert, all_nodes, mld1_bytes, mld2_query_end, mld_send_query,
}
use ecmh.Mld.Report1.{report1_bytes, mld1_send_report}

-- A message of `plen` bytes behind the hop-by-hop header, by its checksum.
record IsMessage (b : ℕ → List ℕ) (plen : ℕ) : Type 0 where
  pub octets : All (λ (x : ℕ). x < 256) (b 0)
  pub header : (csum : ℕ) → sum_odd (memory_of (b csum)) 8 32 ≡ sum_odd (memory_of (b 0)) 8 32
  pub message :
      (csum : ℕ)
      → csum < 2 ^ 16
      → sum_odd (memory_of (b csum)) 48 plen ≡ sum_odd (memory_of (b 0)) 48 plen + csum

abbrev csum_of : (ℕ → List ℕ) → ℕ → ℕ
csum_of b plen = ipv6_checksum (memory_of (b 0)) 0 58 48 plen

IsMessage-verifies :
    (b : ℕ → List ℕ) (plen : ℕ)
    → plen < 2 ^ 16
    → IsMessage b plen
    → covered_sum (memory_of (b (csum_of b plen))) 0 58 48 plen % 65535 ≡ 0
IsMessage-verifies b plen h v =
    let (positive, small, sum) =
      ipv6_checksum-verifies (memory_of (b 0)) 0 58 48 plen (All-HasBytes (b 0) v.octets)
        (omega arith) h in
    omega (arith, sum, v.message (csum_of b plen) small, v.header (csum_of b plen))

report1-IsMessage : (linklocal mca : ℕ) → IsMessage (report1_bytes linklocal mca) 24
unfolding report1_bytes addr_bytes sum_odd sum_words
report1-IsMessage linklocal mca = record {
  octets = omega arith;
  header = λ csum. refl;
  message = λ csum h. omega (arith, h);
}

-- The query by the setting `mld1only`.
abbrev query_as : Bool → In6Addr → In6Addr → ℕ → List ℕ
query_as one linklocal mca csum =
    ip6_header (if one then 32 else 36) 0 1 linklocal all_nodes
    ++ (router_alert ++ (mld1_bytes 130 csum 2000 mca ++ (if one then [] else mld2_query_end)))

query_as-IsMessage :
    (one : Bool) (linklocal mca : ℕ)
    → IsMessage (query_as one linklocal mca) (if one then 24 else 28)
unfolding addr_bytes sum_odd sum_words
query_as-IsMessage true linklocal mca = record {
  octets = omega arith;
  header = λ csum. refl;
  message = λ csum h. omega (arith, h);
}
query_as-IsMessage false linklocal mca = record {
  octets = omega arith;
  header = λ csum. refl;
  message = λ csum h. omega (arith, h);
}

query-IsMessage :
    (c : Conf) (linklocal mca : ℕ)
    → IsMessage (query_bytes c linklocal mca) (if c.mld1only then 24 else 28)
unfolding query_bytes
query-IsMessage c linklocal mca = query_as-IsMessage c.mld1only linklocal mca

wire-send :
    (e : Env) (p : ℕ) (iph : Memory) (len : ℕ) (w : World)
    → (count_icmp_sent p (sendpacket6 e p iph len w)).wire
      ≡ w.wire ++ frame_of (int_at w.conf.ints p) iph len ∷ []
unfolding sendpacket6 count_icmp_sent int_destroy
wire-send e p iph len w = ground arith

-- A frame whose bytes are a packet that verifies: its checksum and all other words that it covers
-- sum up to a multiple of 65535. The message has `plen` bytes and stands behind the hop-by-hop
-- header.
abbrev pub Verifies : Frame → ℕ → Type 0
Verifies f plen = covered_sum (memory_of f.bytes) 0 58 48 plen % 65535 ≡ 0

report1-read :
    (linklocal mca csum : ℕ)
    → read_bytes (memory_of (report1_bytes linklocal mca csum)) 0 72
      ≡ report1_bytes linklocal mca csum
unfolding report1_bytes addr_bytes read_bytes
report1-read linklocal mca csum = refl

report1-type : (linklocal mca csum : ℕ) → memory_of (report1_bytes linklocal mca csum) 48 ≡ 131
unfolding report1_bytes addr_bytes
report1-type linklocal mca csum = refl

query-type :
    (c : Conf) (linklocal mca csum : ℕ) → memory_of (query_bytes c linklocal mca csum) 48 ≡ 130
unfolding query_bytes addr_bytes
query-type c linklocal mca csum = refl

query_as-read :
    (one : Bool) (linklocal mca csum : ℕ)
    → read_bytes (memory_of (query_as one linklocal mca csum)) 0 (if one then 72 else 76)
      ≡ query_as one linklocal mca csum
unfolding addr_bytes read_bytes
query_as-read true linklocal mca csum = refl
query_as-read false linklocal mca csum = refl

-- A version 1 report goes out as one frame on its interface, its type is 131 and its checksum is right.
pub mld1_send_report-Verifies :
    (e : Env) (p : ℕ) (mca : In6Addr) (w : World)
    → (f : Frame) × ((mld1_send_report e p mca w).wire ≡ w.wire ++ f ∷ [])
      × (f.ifindex ≡ (int_at w.conf.ints p).ifindex)
      × (memory_of f.bytes 48 ≡ 131)
      × Verifies f 24
unfolding mld1_send_report
mld1_send_report-Verifies e p mca w =
    let ll = (int_at w.conf.ints p).linklocal in
    let csum = csum_of (report1_bytes ll mca) 24 in
    let mem = memory_of (report1_bytes ll mca csum) in
    (
      frame_of (int_at w.conf.ints p) mem 72,
      wire-send e p mem 72 w,
      refl,
      ap (λ bs. memory_of bs 48) (report1-read ll mca csum) ∙ report1-type ll mca csum,
      rw (report1-read ll mca csum)
          (IsMessage-verifies (report1_bytes ll mca) 24 (omega arith) (report1-IsMessage ll mca)),
    )

query-read :
    (c : Conf) (linklocal mca csum : ℕ)
    → read_bytes (memory_of (query_bytes c linklocal mca csum)) 0 (if c.mld1only then 72 else 76)
      ≡ query_bytes c linklocal mca csum
unfolding query_bytes
query-read c linklocal mca csum = query_as-read c.mld1only linklocal mca csum

-- The length of the message is that of the packet less the 48 bytes before it.
query-csum :
    (c : Conf) (linklocal mca : ℕ)
    → ipv6_checksum
        (memory_of (query_bytes c linklocal mca 0))
        0
        58
        48
        ((if c.mld1only then 72 else 76) - 48)
      ≡ csum_of (query_bytes c linklocal mca) (if c.mld1only then 24 else 28)
query-csum c linklocal mca =
    ap (λ n. ipv6_checksum (memory_of (query_bytes c linklocal mca 0)) 0 58 48 n) (ground arith)

-- On an interface that is not the upstream one, a query goes out as one frame, of version 1 or 2 by
-- the setting `mld1only`; its type is 130 and its checksum is right.
pub mld_send_query-Verifies :
    (e : Env) (p : ℕ) (mca : In6Addr) (w : World)
    → (int_at w.conf.ints p).upstream ≡ false
    → (f : Frame) × ((mld_send_query e p mca w).wire ≡ w.wire ++ f ∷ [])
      × (f.ifindex ≡ (int_at w.conf.ints p).ifindex)
      × (memory_of f.bytes 48 ≡ 130)
      × Verifies f (if w.conf.mld1only then 24 else 28)
unfolding mld_send_query
mld_send_query-Verifies e p mca w down =
    let c = w.conf in
    let ll = (int_at c.ints p).linklocal in
    let len : ℕ = if c.mld1only then 72 else 76 in
    let plen : ℕ = if c.mld1only then 24 else 28 in
    let mem = memory_of (query_bytes c ll mca (csum_of (query_bytes c ll mca) plen)) in
    (
      frame_of (int_at c.ints p) mem len,
      rw (down, query-csum c ll mca) (wire-send e p mem len w),
      refl,
      ap (λ bs. memory_of bs 48) (query-read c ll mca (csum_of (query_bytes c ll mca) plen))
          ∙ query-type c ll mca (csum_of (query_bytes c ll mca) plen),
      rw (query-read c ll mca (csum_of (query_bytes c ll mca) plen)) (
          IsMessage-verifies (query_bytes c ll mca) plen (ground arith) (query-IsMessage c ll mca)),
    )
