-- ===== src/Mld/Quiet.antt =====
-- The groups while the functions of src/ecmh.c that send run.
use ecmh.Prelude.{ℕ, ◌≡◌, refl, Option, arith}
use ecmh.Addr.{In6Addr}
use ecmh.Memory.{Memory}
use ecmh.LinkList.{LinkedList}
use ecmh.Groups.{GroupNode}
use ecmh.Conf.{World, Env}
use ecmh.Interfaces.{int_destroy}
use ecmh.Send.{sendpacket6, count_icmp_sent, icmp6_send}
use ecmh.Mld.Query.{mld_send_query, send_mld_querys}
use ecmh.Mld.Report2.{mld2_send_report}
use ecmh.Mld.Reports.{mld_send_report, mld_send_report_all}
use ecmh.Mld.Kept.{Keeps, kept-icmp6_send, kept-mld_send_query, kept-send_mld_querys}
use ecmh.Mld.Kept.Reports.{kept-mld2_send_report, kept-mld_send_report, kept-mld_send_report_all}

abbrev pub groups_of : World → LinkedList GroupNode
groups_of w = w.conf.groups

pub groups-sendpacket6 :
    (e : Env) (p : ℕ) (iph : Memory) (len : ℕ) (w : World)
    → groups_of (sendpacket6 e p iph len w) ≡ groups_of w
unfolding sendpacket6 int_destroy
groups-sendpacket6 e p iph len w = ground arith

groups-Keeps : Keeps groups_of
unfolding count_icmp_sent
groups-Keeps = record { packet = groups-sendpacket6; icmp = λ p w. refl; noted = λ w b. refl }

pub groups-icmp6_send :
    (e : Env) (p : ℕ) (src : In6Addr) (type code : ℕ) (payload : Memory) (dlen : ℕ) (w : World)
    → groups_of (icmp6_send e p src type code payload dlen w) ≡ groups_of w
groups-icmp6_send e p src type code payload dlen w =
    kept-icmp6_send groups_of groups-Keeps e p src type code payload dlen w

pub groups-mld_send_query :
    (e : Env) (p : ℕ) (mca : In6Addr) (w : World)
    → groups_of (mld_send_query e p mca w) ≡ groups_of w
groups-mld_send_query e p mca w = kept-mld_send_query groups_of groups-Keeps e p mca w

pub groups-send_mld_querys : (e : Env) (w : World) → groups_of (send_mld_querys e w) ≡ groups_of w
groups-send_mld_querys e w = kept-send_mld_querys groups_of groups-Keeps e w

-- Sending a version 2 report, for one group or for all, leaves the groups as they are.
pub groups-mld2_send_report :
    (e : Env) (p : ℕ) (mca : Option In6Addr) (w : World)
    → groups_of (mld2_send_report e p mca w) ≡ groups_of w
groups-mld2_send_report e p mca w = kept-mld2_send_report groups_of groups-Keeps e p mca w

pub groups-mld_send_report :
    (e : Env) (p : ℕ) (mca : In6Addr) (w : World)
    → groups_of (mld_send_report e p mca w) ≡ groups_of w
groups-mld_send_report e p mca w = kept-mld_send_report groups_of groups-Keeps e p mca w

pub groups-mld_send_report_all :
    (e : Env) (p : ℕ) (mca : In6Addr) (w : World)
    → groups_of (mld_send_report_all e p mca w) ≡ groups_of w
groups-mld_send_report_all e p mca w = kept-mld_send_report_all groups_of groups-Keeps e p mca w
