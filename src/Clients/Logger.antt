-- ===== src/Clients/Logger.antt =====
-- The logger of the HTTP requests of gophercloud (pkg/openstack/factory.go), which names the line
-- of the program that called gophercloud as the place of a message.
pub mod Depth
use machine_controller_manag.Base.{
  ℕ, zero, suc, ◌+◌, String, Bool, true, false, ◌&&◌, not, Option, none, some, List, [], ◌∷◌,
  if◌then◌else◌,
}
use machine_controller_manag.Text.{contains_text}
use machine_controller_manag.Text.Split.{split}

-- What the logger calls: `klog.V(6)`, the file of `runtime.Caller(i)` where it succeeds,
-- `fmt.Sprintf` with arguments `A`, and `klog.InfoDepth`, over a log `X`.
pub record LogLibrary (X A : Type 0) : Type 0 where
  pub verbose : X → Bool
  pub caller : ℕ → Option String
  pub sprintf : String → List A → String
  pub info_depth : ℕ → String → X → X

abbrev pub gophercloud : String
gophercloud = "/github.com/gophercloud/gophercloud"

abbrev pub newline : ℕ
newline = 10

abbrev pub is_gophercloud : String → Bool
is_gophercloud file = contains_text file gophercloud

module _ {X A : Type 0} (lib : LogLibrary X A) where
  -- the loop from `i` on for the given number of rounds, with `found`: it ends with `skip`
  unfoldable pub skip_from : ℕ → ℕ → Bool → ℕ
  skip_from zero i found = 0
  skip_from (suc n) i found = elim (lib.caller i) [
    | none ↦ 0
    | some file ↦
        if not found && is_gophercloud file
        then skip_from n (i + 1) true
        else if found && not (is_gophercloud file)
        then i
        else skip_from n (i + 1) found
  ]

  -- `for i := 10; i <= 20; i++`
  unfoldable pub skip : ℕ
  skip = skip_from 11 10 false

  -- `for _, v := range lines { klog.InfoDepth(skip, v) }`
  unfoldable pub log_lines : ℕ → List String → X → X
  log_lines depth [] x = x
  log_lines depth (line ∷ lines) x = log_lines depth lines (lib.info_depth depth line x)

  unfoldable pub printf : String → List A → X → X
  printf format args x =
      if lib.verbose x then log_lines skip (split newline (lib.sprintf format args)) x else x
