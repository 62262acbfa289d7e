-- ===== src/Mld/Reports.antt =====
-- `mld_send_report` and `mld_send_report_all` of src/ecmh.c.
use ecmh.Prelude.{ℕ, zero, suc, ◌+◌, Bool, not, ◌&&◌, ◌||◌, ◌==◌, some, length, if◌then◌else◌}
use ecmh.Addr.{In6Addr}
use ecmh.Conf.{IntNode, Conf, World, Env, int_at}
use ecmh.Mld.Report1.{mld1_send_report}
use ecmh.Mld.Report2.{mld2_send_report}

-- The two guards of `mld_send_report`. The second is read after the first report.
abbrev pub wants_report1 : Conf → IntNode → Bool
wants_report1 c i =
    not c.mld2only && (c.mld1only || (i.mld_version == 0 && not i.upstream) || i.mld_version == 1)

abbrev pub wants_report2 : Conf → IntNode → Bool
wants_report2 c i = not c.mld1only && (c.mld2only || i.mld_version == 0 || i.mld_version == 2)

unfoldable pub mld_send_report : Env → ℕ → In6Addr → World → World
mld_send_report e p mca w =
    let w' =
      if wants_report1 w.conf (int_at w.conf.ints p) then mld1_send_report e p mca w else w in
    if wants_report2 w'.conf (int_at w'.conf.ints p) then mld2_send_report e p (some mca) w' else w'

-- The loop over the interfaces from place `k` on, `n` to go.
unfoldable pub report_from : Env → ℕ → ℕ → ℕ → In6Addr → World → World
report_from e zero k p mca w = w
report_from e (suc n) k p mca w =
    let i = int_at w.conf.ints k in
    report_from e n (k + 1) p mca (
      if i.mtu == 0 || (int_at w.conf.ints p).ifindex == i.ifindex
      then w
      else mld_send_report e k mca w)

unfoldable pub mld_send_report_all : Env → ℕ → In6Addr → World → World
mld_send_report_all e p mca w = report_from e (length w.conf.ints) 0 p mca w
