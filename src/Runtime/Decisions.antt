-- ===== src/Runtime/Decisions.antt =====
-- Which commands are given a runtime, and what it means that one is ready.
use vyx.Base.{◌≡◌, ◌↔◌, refl, arith, Bool, true, ◌||◌, List, [], ◌∷◌, ◌++◌, lit, none, Text}
use vyx.Runtime.{
  unknown, detect, detect_in, fields, needs_provisioning, unless_go, download_uv, uv_install, Host,
  acts, found_python, python_dir, ensure_python, uv_dir,
}

unless_go-none : (fs : List Text) → unless_go fs ≡ none → (fs ≡ []) × (detect_in fs ≡ unknown)
unless_go-none [] h = (refl, refl)
unless_go-none (f ∷ fs) h = cc

-- `NeedsProvisioning` panics for a command of white space alone, and so only where `Detect` does not
-- know the runtime: the service, which asks that first, never gets there.
pub needs_provisioning_panics :
    (skips : Bool) (command : Text)
    → needs_provisioning skips command ≡ none
    → (fields command ≡ []) × (detect command ≡ unknown)
unfolding needs_provisioning detect
needs_provisioning_panics skips command h = ground (arith, unless_go-none (fields command))

-- Python is said to be ready exactly if uv is there or can be downloaded, the installation ends
-- without an error, and there is an interpreter of that version, or of any other.
pub ensure_python_ready :
    (h : Host) (version dir : Text)
    → ((ensure_python h version dir).1 ≡ none) ↔ (
        ((h.exists (uv_dir dir ++ lit "/uv") || h.works (download_uv (uv_dir dir))) ≡ true)
        × (h.works (uv_install version (python_dir dir)) ≡ true)
        × (found_python h (python_dir dir) version ≡ true))
unfolding ensure_python acts
ensure_python_ready h version dir = ground arith
