-- ===== src/Pxe/Serve/Cleanup.antt =====
-- What `serveFile` of pkg/pxe/pxe.go leaves behind.
use gokrazy_router.Prelude.{
  ℕ, ◌+◌, ◌-◌, ◌≡◌, refl, ap, ◌∙◌, Bool, true, false, not, none, List, ◌++◌, arith, Text, codes,
  Dict, lookup,
}
use gokrazy_router.Prelude.Action.{Action, Outcome, failed, done, and_then, wrap}
use gokrazy_router.Pxe.Image.{ImageServer, resolve_image}
use gokrazy_router.Pxe.Wire.{UdpAddr}
use gokrazy_router.Pxe.Files.{path_within_root, resolve_path, require, open_tftp_file, err_packet}
use gokrazy_router.Pxe.Files.Descriptors.{opened_by, open_tftp_file-descriptors}
use gokrazy_router.Pxe.Reader.{Table, count_key}
use gokrazy_router.Pxe.Reader.Consistency.{
  IsConsistent, active-end_transfer, count_key-end_transfer,
}
use gokrazy_router.Pxe.Serve.{System, stream, sized, opened, resolved, serve_request}

-- how the calls of the system change the number of open descriptors
pub record Counts (World : Type 0) (sys : System World) : Type 0 where
  pub descriptors : World → ℕ
  pub open_counts :
      (dir : Text) (w : World)
      → descriptors (sys.files.open_directory dir w).1
        ≡ opened_by (sys.files.open_directory dir w).0 + descriptors w
  pub openat_counts :
      (fd : ℕ) (part : Text) (directory : Bool) (w : World)
      → descriptors (sys.files.openat_no_follow fd part directory w).1
        ≡ opened_by (sys.files.openat_no_follow fd part directory w).0 + descriptors w
  pub close_counts : (fd : ℕ) (w : World) → descriptors (sys.files.close fd w) ≡ descriptors w - 1
  pub listen_counts :
      (w : World)
      → descriptors (sys.listen_transfer w).1 ≡ opened_by (sys.listen_transfer w).0 + descriptors w
  pub eval_keeps :
      (path : Text) (w : World) → descriptors (sys.paths.eval_symlinks path w).1 ≡ descriptors w
  pub size_keeps : (fd : ℕ) (w : World) → descriptors (sys.file_size fd w).1 ≡ descriptors w
  pub transfer_keeps : (conn : ℕ) (w : World) → descriptors (sys.transferred conn w) ≡ descriptors w
  pub control_keeps :
      (pkt : List ℕ) (w : World) → descriptors (sys.send_control pkt w) ≡ descriptors w

module _ {World : Type 0} (sys : System World) (counts : Counts World sys) where
  stream-keeps :
      (client : UdpAddr) (opts : Dict Text) (fd size : ℕ) (r : Outcome ℕ × World) (n : ℕ)
      → counts.descriptors r.1 ≡ opened_by r.0 + n
      → counts.descriptors (stream sys client opts fd size r).1 ≡ n
  unfolding stream
  stream-keeps client opts fd size (failed e, w) n h =
      omega (arith, counts.control_keeps (err_packet 1 (codes "Server error")) w, h)
  stream-keeps client opts fd size (done conn, w) n h =
      omega
        (arith, counts.close_counts conn (sys.transferred conn w), counts.transfer_keeps conn w, h)

  sized-keeps :
      (client : UdpAddr) (opts : Dict Text) (fd : ℕ) (r : Outcome ℕ × World) (n : ℕ)
      → counts.descriptors r.1 ≡ n
      → counts.descriptors (sized sys client opts fd r).1 ≡ n
  unfolding sized
  sized-keeps client opts fd (failed e, w) n h =
      counts.control_keeps (err_packet 1 (codes "Server error")) w ∙ h
  sized-keeps client opts fd (done size, w) n h =
      stream-keeps client opts fd size (sys.listen_transfer w) n
        (counts.listen_counts w ∙ ap (λ k. opened_by (sys.listen_transfer w).0 + k) h)

  opened-keeps :
      (client : UdpAddr) (opts : Dict Text) (r : Outcome ℕ × World) (n : ℕ)
      → counts.descriptors r.1 ≡ opened_by r.0 + n
      → counts.descriptors (opened sys client opts r).1 ≡ n
  unfolding opened
  opened-keeps client opts (failed e, w) n h =
      omega (arith, counts.control_keeps (err_packet 1 (codes "File not found")) w, h)
  opened-keeps client opts (done fd, w) n h =
      let inner =
        sized-keeps client opts fd (sys.file_size fd w) (1 + n) (counts.size_keeps fd w ∙ h) in
      omega (arith, counts.close_counts fd (sized sys client opts fd (sys.file_size fd w)).1, inner)

  resolved-keeps :
      (client : UdpAddr) (opts : Dict Text) (r : Outcome (Text × Text) × World) (n : ℕ)
      → counts.descriptors r.1 ≡ n
      → counts.descriptors (resolved sys client opts r).1 ≡ n
  unfolding resolved
  resolved-keeps client opts (failed e, w) n h =
      counts.control_keeps (err_packet 1 (codes "File not found")) w ∙ h
  resolved-keeps client opts (done located, w) n h =
      let file = open_tftp_file sys.files located.0 located.1 w in
      opened-keeps client opts file n (
        (open_tftp_file-descriptors sys.files counts.descriptors counts.open_counts
          counts.openat_counts counts.close_counts located.0 located.1 w).0
        ∙ ap (λ k. opened_by file.0 + k) h)

  -- a sequence keeps the number where both parts do
  and_then-keeps :
      {A B : Type 0}
      → (r : Outcome A × World) (next : A → Action World B) (n : ℕ) → counts.descriptors r.1 ≡ n
      → ((v : A) (w : World) → counts.descriptors w ≡ n → counts.descriptors (next v w).1 ≡ n)
      → counts.descriptors (and_then r next).1 ≡ n
  and_then-keeps (failed e, w) next n h k = h
  and_then-keeps (done v, w) next n h k = k v w h

  wrap-keeps :
      {A : Type 0}
      → (context : Text) (r : Outcome A × World) (n : ℕ) → counts.descriptors r.1 ≡ n
      → counts.descriptors (wrap context r).1 ≡ n
  wrap-keeps context (failed e, w) n h = h
  wrap-keeps context (done v, w) n h = h

  require-keeps :
      (b : Bool) (e : Text) (w : World) (n : ℕ)
      → counts.descriptors w ≡ n
      → counts.descriptors (require sys.paths b e w).1 ≡ n
  require-keeps true e w n h = h
  require-keeps false e w n h = h

  resolve_path-keeps :
      (s : ImageServer) (root filename : Text) (w : World)
      → counts.descriptors (resolve_path sys.paths s root filename w).1 ≡ counts.descriptors w
  unfolding resolve_path
  resolve_path-keeps s root filename w =
      let ps = sys.paths in
      let n = counts.descriptors w in
      let img = resolve_image s filename in
      let full = ps.join root img in
      and_then-keeps (require ps (not (ps.is_abs img)) (codes "absolute path rejected: " ++ img) w)
        _ n (require-keeps (not (ps.is_abs img)) _ w n refl)
        (λ u1 w1 h1.
          and_then-keeps
            (require ps (path_within_root ps root full) (codes "path escapes TFTP root: " ++ img)
              w1)
            _ n (require-keeps (path_within_root ps root full) _ w1 n h1)
            (λ u2 w2 h2.
              and_then-keeps (wrap (codes "resolve root " ++ root) (ps.eval_symlinks root w2)) _ n
                (wrap-keeps (codes "resolve root " ++ root) (ps.eval_symlinks root w2) n
                  (counts.eval_keeps root w2 ∙ h2))
                (λ real_root w3 h3.
                  and_then-keeps (wrap (codes "open " ++ img) (ps.eval_symlinks full w3)) _ n
                    (wrap-keeps (codes "open " ++ img) (ps.eval_symlinks full w3) n
                      (counts.eval_keeps full w3 ∙ h3))
                    (λ real_full w4 h4.
                      and_then-keeps
                        (require ps (path_within_root ps real_root real_full)
                          (codes "symlink escapes TFTP root: " ++ img) w4)
                        _ n (require-keeps (path_within_root ps real_root real_full) _ w4 n h4)
                        (λ u5 w5 h5.
                          and_then-keeps
                            (wrap (codes "rel " ++ img) (ps.rel real_root real_full, w5)) _ n
                            (wrap-keeps (codes "rel " ++ img) (ps.rel real_root real_full, w5) n h5)
                            (λ rel w6 h6. h6))))))

  -- Where the calls of the system open and close one descriptor each, and none where they fail: whatever
  -- `serveFile` meets on its way, a name that is refused, a file that cannot be opened or sized, no socket,
  -- or a transfer that ends or is given up, it leaves no descriptor open, and from a consistent table the
  -- entry of its transfer is deleted, and no call of it runs.
  pub serve_request-keeps :
      (s : ImageServer) (root : Text) (client : UdpAddr) (key filename : Text) (opts : Dict Text)
      (t : Table) (w : World)
      → IsConsistent t
      → let result = serve_request sys s root client key filename opts t w in
        (counts.descriptors result.1 ≡ counts.descriptors w)
        × (lookup key result.2.active ≡ none)
        × (count_key key result.2.running ≡ 0)
  unfolding serve_request
  serve_request-keeps s root client key filename opts t w ok = (
    resolved-keeps client opts (resolve_path sys.paths s root filename w) (counts.descriptors w)
        (resolve_path-keeps s root filename w),
    active-end_transfer key t ok,
    count_key-end_transfer key t ok,
  )
