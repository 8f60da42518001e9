-- ===== src/Fs/Installer/Laws.antt =====
-- What the installer of fs/installer.c does to the drives, on drives that keep `IsDrives`.
use chris_os.Base.{if_lem, ℕ, zero, suc, ◌+◌, ◌^◌, ◌≤◌, ◌<◌, ◌≡◌, refl, sym, ◌∙◌, ◌≢◌, inl}
use chris_os.Base.{inr, true, false, not, ◌||◌, none, List, [], ◌∷◌, arith, ◌==◌}
use chris_os.Base.{if◌then◌else◌, eq→==, ne→==, ==→eq, Bool-cases, Option-cases, All}
use mathlib.Core.Path.{subst}
use chris_os.Drivers.Disk.{Drives, IsPlace, IsDrives}
use chris_os.Fs.Installer.{install_sector_count, Installer, Copied, Outcome, copy_sectors}
use chris_os.Fs.Installer.{run_install, choose_target, confirm, installer_handle_char}
use chris_os.Fs.Installer.{type_keys}
use chris_os.Mm.{Heap, kmalloc}

module _ {S : Type 0} {drives : Drives S} {bytes : S → ℕ → ℕ → List ℕ} {Ready : S → Type 0}
    (laws : IsDrives drives bytes Ready) where
  -- The sectors from `lba` on, `left` of them, are the source's on the target, and all other
  -- sectors of both drives are as before.
  pub record IsCopy (target left lba : ℕ) (s t : S) : Type 0 where
    pub copied : (m : ℕ) → lba ≤ m → m < lba + left → bytes t target m ≡ bytes s 0 m
    pub before : (m : ℕ) → m < lba → bytes t target m ≡ bytes s target m
    pub behind : (m : ℕ) → lba + left ≤ m → bytes t target m ≡ bytes s target m
    pub others : (d m : ℕ) → d ≢ target → bytes t d m ≡ bytes s d m
    pub ready : Ready t

  -- What one round does to the sectors.
  record IsRound (target lba : ℕ) (s t : S) : Type 0 where
    here : bytes t target lba ≡ bytes s 0 lba
    elsewhere : (m : ℕ) → m ≢ lba → bytes t target m ≡ bytes s target m
    others : (d m : ℕ) → d ≢ target → bytes t d m ≡ bytes s d m
    ready : Ready t

  round :
      (target lba : ℕ) (s : S)
      → Ready s
      → target < 2
      → lba < 2 ^ 28
      → IsRound target lba s
          (drives.write_at target lba (bytes s 0 lba) (drives.read_at 0 lba s).1).1
  round target lba s h ht hl =
      let from : IsPlace 0 lba = record { drive_in = omega arith; lba_in = hl } in
      let to : IsPlace target lba = record { drive_in = ht; lba_in = hl } in
      let buf = bytes s 0 lba in
      let u = (drives.read_at 0 lba s).1 in
      let ready = laws.read_ready s 0 lba h from in
      let whole = laws.sector s 0 lba h in
      let keeps : (e m : ℕ) → bytes u e m ≡ bytes s e m =
        λ e m. laws.read_keeps s 0 lba e m h from in
      record {
        here =
            laws.write_puts u target lba target lba buf ready to whole
            ∙ rw (eq→== target target refl, eq→== lba lba refl) refl;
        elsewhere = λ m ne.
            laws.write_puts u target lba target m buf ready to whole
            ∙ (rw (eq→== target target refl, ne→== m lba ne) (keeps target m));
        others = λ d m ne.
            laws.write_puts u target lba d m buf ready to whole
            ∙ (rw (ne→== d target ne) (keeps d m));
        ready = laws.write_ready u target lba buf ready to whole;
      }

  IsDone : ℕ → ℕ → ℕ → S → Copied S → Type 0
  IsDone target left lba s r = (r.complete ≡ true) × IsCopy target left lba s r.hardware

  -- The rounds one after the other.
  join :
      (target left lba : ℕ) (s t u : S)
      → target ≢ 0
      → IsRound target lba s t
      → IsCopy target left (lba + 1) t u
      → IsCopy target (suc left) lba s u
  join target left lba s t u ne r h = record {
    copied = λ m a b. elim (Bool-cases (m == lba)) [
      | inl e ↦ let same : m ≡ lba = ==→eq m lba e in rw same (h.before lba (omega arith) ∙ r.here)
      | inr e ↦ h.copied m (ground arith) (omega arith) ∙ r.others 0 m (λ z. ne (sym z))
    ];
    before = λ m a. h.before m (omega arith) ∙ r.elsewhere m (ground arith);
    behind = λ m a. h.behind m (omega arith) ∙ r.elsewhere m (ground arith);
    others = λ d m n. h.others d m n ∙ r.others d m n;
    ready = h.ready;
  }

  copy_sectors-IsDone :
      (target left lba : ℕ) (s : S)
      → Ready s
      → target ≢ 0
      → target < 2
      → lba + left ≤ 2 ^ 28
      → IsDone target left lba s (copy_sectors drives target left lba s)
  unfolding copy_sectors IsDone
  copy_sectors-IsDone target zero lba s h ne ht hl = (
    refl,
    record {
      copied = λ m a b. absurd (omega arith);
      before = λ m a. refl;
      behind = λ m a. refl;
      others = λ d m n. refl;
      ready = h;
    },
  )
  copy_sectors-IsDone target (suc left) lba s h ne ht hl =
      let from : IsPlace 0 lba = record { drive_in = omega arith; lba_in = omega arith } in
      let to : IsPlace target lba = record { drive_in = ht; lba_in = omega arith } in
      let buf = bytes s 0 lba in
      let u = (drives.read_at 0 lba s).1 in
      let t = (drives.write_at target lba buf u).1 in
      let read = laws.read_some s 0 lba h from in
      let written =
        laws.write_true u target lba buf (laws.read_ready s 0 lba h from) to
          (laws.sector s 0 lba h) in
      let first = round target lba s h ht (omega arith) in
      let rest = copy_sectors-IsDone target left (lba + 1) t first.ready ne ht (omega arith) in
      rw (copy_sectors, read, written)
        (
          rest.0,
          join target left lba s t (copy_sectors drives target left (lba + 1) t).hardware ne first
              rest.1,
        )

  -- While the confirmation is asked for, the target is the second drive.
  unfoldable pub IsInstaller : Installer → Type 0
  IsInstaller i = i.state ≡ 1 → i.target_drive ≡ 1

  unfoldable pub IsConfirmed : ℕ → Type 0
  IsConfirmed c = (c == b'y' || c == b'Y') ≡ true

  -- What a call may do: nothing to the boot drive, nothing behind the part that is copied, and
  -- without a confirmation nothing at all.
  pub record IsSafe (Quiet : Type 0) (s t : S) : Type 0 where
    pub boot : (m : ℕ) → bytes t 0 m ≡ bytes s 0 m
    pub behind : (d m : ℕ) → install_sector_count ≤ m → bytes t d m ≡ bytes s d m
    pub untouched : Quiet → (d m : ℕ) → bytes t d m ≡ bytes s d m
    pub ready : Ready t

  still : (Quiet : Type 0) (s : S) → Ready s → IsSafe Quiet s s
  still C s h = record {
    boot = λ m. refl;
    behind = λ d m k. refl;
    untouched = λ n d m. refl;
    ready = h;
  }

  run_install-IsCopy :
      (heap : Heap) (s : S)
      → Ready s
      → kmalloc 512 heap ≢ none
      → IsCopy 1 install_sector_count 0 s (run_install drives 1 heap s).hardware
  unfolding run_install IsDone
  run_install-IsCopy heap s h some_left = elim (Option-cases (kmalloc 512 heap)) [
    | inl e ↦ absurd (some_left e)
    | inr (p, e) ↦
        rw (run_install, e)
          (copy_sectors-IsDone 1 install_sector_count 0 s h (ground arith) (omega arith)
            (omega arith)).1
  ]

  run_install-IsSafe :
      (heap : Heap) (s : S) → Ready s → IsSafe ⊥ s (run_install drives 1 heap s).hardware
  unfolding run_install
  run_install-IsSafe heap s h = elim (Option-cases (kmalloc 512 heap)) [
    | inl e ↦ rw (run_install, e) (still ⊥ s h)
    | inr (p, e) ↦
        let t = (run_install drives 1 heap s).hardware in
        let copy = run_install-IsCopy heap s h (λ z. cc) in
        record {
          boot = λ m. copy.others 0 m (ground arith);
          behind = λ d m k. elim (Bool-cases (d == 1)) [
            | inl z ↦ let one : d ≡ 1 = ==→eq d 1 z in rw one (copy.behind m (omega arith))
            | inr z ↦ copy.others d m (ground arith)
          ];
          untouched = λ n d m. absurd n;
          ready = copy.ready;
        }
  ]

  confirmed : (c : ℕ) → (c == b'y' || c == b'Y') ≡ true → IsConfirmed c
  unfolding IsConfirmed
  confirmed c e = e

  confirm-IsSafe :
      (c : ℕ) (i : Installer) (heap : Heap) (s : S)
      → Ready s
      → i.target_drive ≡ 1
      → IsSafe (¬ IsConfirmed c) s (confirm drives c i heap s).hardware
  unfolding confirm
  confirm-IsSafe c i heap s h one = elim (Bool-cases (c == b'y' || c == b'Y')) [
    | inl e ↦
        let sure = confirmed c e in
        let safe = run_install-IsSafe heap s h in
        rw (confirm, e, one)
          (record {
            boot = safe.boot;
            behind = safe.behind;
            untouched = λ n d m. absurd (n sure);
            ready = safe.ready;
          })
    | inr e ↦ rw (confirm, e) (still (¬ IsConfirmed c) s h)
  ]

  target_drive-one : (i : Installer) → IsInstaller i → i.state ≡ 1 → i.target_drive ≡ 1
  unfolding IsInstaller
  target_drive-one i v h = v h

  confirm-IsInstaller :
      (c : ℕ) (i : Installer) (heap : Heap) (s : S)
      → IsInstaller i
      → IsInstaller (confirm drives c i heap s).installer
  unfolding confirm IsInstaller
  confirm-IsInstaller c i heap s v = elim (Bool-cases (c == b'y' || c == b'Y')) [
    | inl e ↦ rw (confirm, e) (λ h. absurd (omega arith))
    | inr e ↦ rw (confirm, e) v
  ]

  choose_target-still :
      (c : ℕ) (i : Installer) (heap : Heap) (s : S) → (choose_target drives c i heap s).hardware ≡ s
  unfolding choose_target
  choose_target-still c i heap s = ground arith

  -- A key that is taken as the target is the digit of the second drive.
  choose_target-IsInstaller :
      (c : ℕ) (i : Installer) (heap : Heap) (s : S)
      → i.state ≡ 0
      → IsInstaller (choose_target drives c i heap s).installer
  unfolding choose_target IsInstaller
  choose_target-IsInstaller c i heap s h = ground arith

  -- What every call of the installer keeps.
  Keeps : ℕ → S → Outcome S → Type 0
  Keeps c s o = IsInstaller o.installer × IsSafe (¬ IsConfirmed c) s o.hardware

  choose_target-Keeps :
      (c : ℕ) (i : Installer) (heap : Heap) (s : S)
      → Ready s
      → i.state ≡ 0
      → Keeps c s (choose_target drives c i heap s)
  unfolding Keeps
  choose_target-Keeps c i heap s h z = (
    choose_target-IsInstaller c i heap s z,
    subst (IsSafe (¬ IsConfirmed c) s) (sym (choose_target-still c i heap s))
        (still (¬ IsConfirmed c) s h),
  )

  installer_handle_char-Keeps :
      (c : ℕ) (i : Installer) (heap : Heap) (s : S)
      → Ready s
      → IsInstaller i
      → Keeps c s (installer_handle_char drives c i heap s)
  unfolding installer_handle_char Keeps
  installer_handle_char-Keeps c i heap s h v =
      let ignored : Outcome S = record { installer = i; heap = heap; hardware = s; shown = [] } in
      let kept : Keeps c s ignored = (v, still (¬ IsConfirmed c) s h) in
      let answer : Outcome S = if i.state == 1 then confirm drives c i heap s else ignored in
      let chosen : Outcome S = if i.state == 0 then choose_target drives c i heap s else answer in
      if_lem (Keeps c s) (not i.active) ignored chosen (λ a. kept)
        (λ a.
          if_lem (Keeps c s) (i.state == 0) (choose_target drives c i heap s) answer
            (λ b. choose_target-Keeps c i heap s h (==→eq i.state 0 b))
            (λ b.
              if_lem (Keeps c s) (i.state == 1) (confirm drives c i heap s) ignored
                (λ d. (
                  confirm-IsInstaller c i heap s v,
                  confirm-IsSafe c i heap s h (target_drive-one i v (==→eq i.state 1 d)),
                ))
                (λ d. kept)))

  -- No key is y or Y.
  pub IsQuiet : List ℕ → Type 0
  IsQuiet keys = All (λ c. ¬ IsConfirmed c) keys

  -- Whatever is typed, on drives that keep `IsDrives` and do not fail, from a state in which a target
  -- that waits for its confirmation is the second drive: the boot drive and everything behind the
  -- installed sectors stay as they are, and so does everything unless y or Y is typed.
  pub type_keys-IsSafe :
      (keys : List ℕ) (i : Installer) (heap : Heap) (s : S)
      → Ready s
      → IsInstaller i
      → IsSafe (IsQuiet keys) s (type_keys drives keys i heap s).hardware
  unfolding type_keys Keeps IsQuiet
  type_keys-IsSafe [] i heap s h v = record {
    boot = λ m. refl;
    behind = λ d m k. refl;
    untouched = λ n d m. refl;
    ready = h;
  }
  type_keys-IsSafe (c ∷ keys) i heap s h v =
      let o = installer_handle_char drives c i heap s in
      let (valid, safe) = installer_handle_char-Keeps c i heap s h v in
      let rest = type_keys-IsSafe keys o.installer o.heap o.hardware safe.ready valid in
      record {
        boot = λ m. rest.boot m ∙ safe.boot m;
        behind = λ d m k. rest.behind d m k ∙ safe.behind d m k;
        untouched = λ n d m. rest.untouched n.1 d m ∙ safe.untouched n.0 d m;
        ready = rest.ready;
      }

  -- From the confirmation on: y or Y, with memory for one sector, makes the installed sectors of the
  -- second drive those of the boot drive, keeps all other sectors of both drives, and ends the
  -- installer.
  pub installer_handle_char-IsCopy :
      (c : ℕ) (i : Installer) (heap : Heap) (s : S)
      → Ready s
      → i.active ≡ true
      → i.state ≡ 1
      → i.target_drive ≡ 1
      → IsConfirmed c
      → kmalloc 512 heap ≢ none
      → IsCopy 1 install_sector_count 0 s (installer_handle_char drives c i heap s).hardware
        × ((installer_handle_char drives c i heap s).installer.active ≡ false)
  unfolding installer_handle_char confirm IsConfirmed
  installer_handle_char-IsCopy c i heap s h a b t y some_left =
      rw (installer_handle_char, confirm, a, b, y, t) (run_install-IsCopy heap s h some_left, refl)
