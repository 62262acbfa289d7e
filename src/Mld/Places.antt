-- ===== src/Mld/Places.antt =====
-- The indices of the interfaces while the functions of src/ecmh.c that send run.
use ecmh.Prelude.{ℕ, ◌≡◌, refl, arith, ◌++◌, ◌∷◌, []}
use ecmh.Addr.{In6Addr}
use ecmh.Memory.{Memory}
use ecmh.Conf.{IntNode, Conf, Frame, World, Env, Outcome, sent, no_device, failed, int_at}
use ecmh.Interfaces.{int_destroy, seen_version, int_set_mld_version}
use ecmh.Forward.Laws.{put_int-same}
use ecmh.Send.{sendpacket6, count_icmp_sent, count_sent, frame_of}
use ecmh.Mld.Reports.{mld_send_report_all}
use ecmh.Mld.Kept.{Keeps}
use ecmh.Mld.Kept.Reports.{kept-mld_send_report_all}

abbrev pub index_at : ℕ → World → ℕ
index_at k w = (int_at w.conf.ints k).ifindex

index-sendpacket6 :
    (k : ℕ) (e : Env) (p : ℕ) (iph : Memory) (len : ℕ) (w : World)
    → index_at k (sendpacket6 e p iph len w) ≡ index_at k w
unfolding sendpacket6 int_destroy
index-sendpacket6 k e p iph len w = by_outcome (e.sendto w.wire frame)
  where
    frame : Frame
    frame = frame_of (int_at w.conf.ints p) iph len

    by_outcome :
        (o : Outcome)
        → index_at k (elim o [
          | sent ↦ count_sent p len (record w { wire = w.wire ++ frame ∷ [] })
          | no_device ↦ int_destroy p (record w { wire = w.wire ++ frame ∷ [] })
          | failed ↦ record w { wire = w.wire ++ frame ∷ [] }
        ])
          ≡ index_at k w
    by_outcome sent = put_int-same w p k _ refl
    by_outcome no_device = put_int-same w p k _ refl
    by_outcome failed = refl

index-Keeps : (k : ℕ) → Keeps (index_at k)
unfolding count_icmp_sent
index-Keeps k = record {
  packet = index-sendpacket6 k;
  icmp = λ p w. put_int-same w p k _ refl;
  noted = λ w b. refl;
}

pub index-mld_send_report_all :
    (k : ℕ) (e : Env) (p : ℕ) (mca : In6Addr) (w : World)
    → index_at k (mld_send_report_all e p mca w) ≡ index_at k w
index-mld_send_report_all k e p mca w =
    kept-mld_send_report_all (index_at k) (index-Keeps k) e p mca w

seen_version-ifindex :
    (c : Conf) (now : ℕ) (i : IntNode) (newversion : ℕ)
    → (seen_version c now i newversion).ifindex ≡ i.ifindex
unfolding seen_version
seen_version-ifindex c now i newversion = ground arith

pub index-int_set_mld_version :
    (k : ℕ) (e : Env) (p version : ℕ) (w : World)
    → index_at k (int_set_mld_version e p version w) ≡ index_at k w
unfolding int_set_mld_version
index-int_set_mld_version k e p version w =
    put_int-same w p k _ (seen_version-ifindex w.conf e.now (int_at w.conf.ints p) version)
