-- ===== src/Dashboard/Notice.antt =====
-- The toast that the pages show (dashboard/src/components/Modal.tsx, `Toast`) and the modal dialog.
use go_php.Prelude.{ℕ, String, Option, none, some, Bool, ◌&&◌, str_eq, ltb, if◌then◌else◌}

-- 'success' | 'error' | 'info'
pub data ToastType : Type 0 where
  success error info : ToastType

pub record Toast : Type 0 where
  pub message : String
  pub type : ToastType

abbrev pub toast : String → ToastType → Option Toast
toast m t = some (record { message = m; type = t })

-- The class names by the toast's type.
unfoldable pub colors : ToastType → String
colors success = "border-success/30 bg-success/10 text-success"
colors error = "border-error/30 bg-error/10 text-error"
colors info = "border-info/30 bg-info/10 text-info"

-- setTimeout(onClose, 4000): a toast that has been up for `elapsed` ms with no new render is closed.
unfoldable pub after : ℕ → Option Toast → Option Toast
after elapsed t = if ltb elapsed 4000 then t else none

-- The key handler of a modal that is open, and the click handler of its overlay. Each says whether
-- `onClose` is called.
unfoldable pub key_closes : Bool → String → Bool
key_closes is_open key = is_open && str_eq key "Escape"

unfoldable pub click_closes : Bool → Bool → Bool
click_closes is_open on_overlay = is_open && on_overlay

-- document.body.style.overflow
unfoldable pub body_overflow : Bool → String
body_overflow is_open = if is_open then "hidden" else ""
