-- ===== src/Health/Io/Laws.antt =====
-- What `collectRecoveryClientIO` of ceph/health.go sends.
use ceph_exporter.Base.{
  ℕ, ◌*◌, ◌<◌, ◌≡◌, refl, ap, true, Option, none, some, List, [], ◌∷◌, ◌++◌, ℤ, pos, Text, codes,
  text_eq, arith,
}
use ceph_exporter.Float.{Float64}
use ceph_exporter.Prometheus.{Desc}
use ceph_exporter.Version.Decimal.{print_nat, atoi-print_nat, int64_bound}
use ceph_exporter.Health.FlagDescs
use ceph_exporter.Health.Io.{
  sample, send_rate, counted, total_ops, wrap, scale, scaled, collect_client_io, collect_lines,
  trim_space, times,
}
use ceph_exporter.Health.Io.Lines.{
  Multiple, kilo, mega, giga, printed, bytes_in, hammer_line, jewel_line, read_rate, write_rate,
  hammer_total, jewel_total,
}

wrap_small : (n : ℕ) → n < int64_bound → wrap n ≡ pos n
wrap_small n h = ground arith

-- The bytes that a rate stands for are an `int`.
unfoldable pub Fits : ℕ → Multiple → Type 0
Fits n u = n * bytes_in u < int64_bound

Fits-int : (n : ℕ) (u : Multiple) → Fits n u → n < int64_bound
unfolding Fits
Fits-int n kilo h = omega arith
Fits-int n mega h = omega arith
Fits-int n giga h = omega arith

scale-printed : (u : Multiple) → scale (printed u) ≡ some (bytes_in u)
scale-printed kilo = refl
scale-printed mega = refl
scale-printed giga = refl

module _ (fl : Float64) where
  send_rate_lem :
      (d : Desc) (n : ℕ) (u : Multiple) (o : Option (Text × Text))
      → Fits n u
      → o ≡ some (print_nat n, printed u)
      → send_rate fl d o ≡ (sample fl d (fl.of_int (pos (n * bytes_in u))) ∷ [], true)
  unfolding Fits
  send_rate_lem d n u o h e =
      rw (e, send_rate, atoi-print_nat n (Fits-int n u h), scaled, scale-printed u, times)
        (ap (λ z. (sample fl d (fl.of_int z) ∷ [], true)) (wrap_small (n * bytes_in u) h))

  counted-print_nat :
      (n : ℕ) → n < int64_bound → counted fl (some (print_nat n)) ≡ some (some (pos n))
  counted-print_nat n h = rw (counted, atoi-print_nat n h) refl

  printed_total :
      (n : ℕ) (reads writes : Option ℤ)
      → 0 < n
      → total_ops fl (some (pos n)) reads writes ≡ fl.of_int (pos n)
  printed_total n reads writes h = ground arith

  -- From the line that Ceph prints of its clients, up to Hammer with the sum of the operations and
  -- since Jewel with those that read and those that write, the rates are sent in bytes, the numbers
  -- of operations as they are printed, and as their total the printed one or else the sum of the two,
  -- whatever the units, where the rates in bytes and the numbers are within an int and the number of
  -- operations in the first line, which is that of reads in the second, is not zero.
  pub collect_client_io-lines :
      (r : ℕ) (u : Multiple) (w : ℕ) (v : Multiple) (n m : ℕ)
      → Fits r u
      → Fits w v
      → 0 < n
      → n < int64_bound
      → m < int64_bound
      → (collect_client_io fl (hammer_line r u w v n) ≡ (
        sample fl FlagDescs.client_read_bytes_per_sec (fl.of_int (pos (r * bytes_in u)))
            ∷ sample fl FlagDescs.client_write_bytes_per_sec (fl.of_int (pos (w * bytes_in v)))
            ∷ sample fl FlagDescs.client_io_ops (fl.of_int (pos n))
            ∷ [],
        true,
      ))
        × (collect_client_io fl (jewel_line r u w v n m) ≡ (
          sample fl FlagDescs.client_read_bytes_per_sec (fl.of_int (pos (r * bytes_in u)))
              ∷ sample fl FlagDescs.client_write_bytes_per_sec (fl.of_int (pos (w * bytes_in v)))
              ∷ sample fl FlagDescs.client_io_read_ops (fl.of_int (pos n))
              ∷ sample fl FlagDescs.client_io_write_ops (fl.of_int (pos m))
              ∷ sample fl FlagDescs.client_io_ops (fl.add (fl.of_int (pos n)) (fl.of_int (pos m)))
              ∷ [],
          true,
        ))
  unfolding collect_client_io
  collect_client_io-lines r u w v n m hr hw n0 hn hm =
      let (t, tr, tw) = hammer_total r u w v n in
      let (j, jr, jw) = jewel_total r u w v n m in
      (
        rw
            (
              send_rate_lem _ r u _ hr (read_rate r u _),
              send_rate_lem _ w v _ hw (write_rate r u w v _),
              t,
              tr,
              tw,
              counted-print_nat n hn,
              printed_total n none none n0,
            )
            refl,
        rw
            (
              send_rate_lem _ r u _ hr (read_rate r u _),
              send_rate_lem _ w v _ hw (write_rate r u w v _),
              j,
              jr,
              jw,
              counted-print_nat n hn,
              counted-print_nat m hm,
            )
            refl,
      )

  -- A line of Luminous or later, `cluster:`, ends the loop: what is sent, and whether an error is
  -- returned, are those of the lines before it, whatever follows.
  pub collect_lines-cluster :
      (before : List Text) (l : Text) (after : List Text)
      → text_eq (trim_space l) (codes "cluster:") ≡ true
      → collect_lines fl (before ++ (l ∷ after)) ≡ collect_lines fl before
  unfolding collect_lines
  collect_lines-cluster [] l after h = rw h refl
  collect_lines-cluster (b ∷ before) l after h = rw (collect_lines-cluster before l after h) refl
