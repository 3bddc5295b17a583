-- ===== src/Upload/Handler/Situation.antt =====
-- What the other call of `UploadRpc::Do` of code/src/long_connect/upload_rpc.cpp finds of a part that
-- has gone to the store.
use network_disk_server.Base.{
  Bool, ap, ◌∙◌, false, ◌==◌, ==_self, if◌then◌else◌, ℕ, ◌≡◌, some, [], ◌∷◌, ◌++◌,
}
use network_disk_server.Base.Text.{Bytes, codes, c_str}
use network_disk_server.Upload.Store.{Parts, Stage, Same, path_of, lookup}

-- `md5sum` of a part that has gone to the store prints nothing on its standard output.
pub record Unsummed (g : Stage) : Type 0 where
  pub sum_moved :
      (s : g.State) (ps : Parts) (i : ℕ)
      → (g.files s).stored ≡ some ps
      → (g.files s).parts ≡ []
      → (t : g.State) × (g.host.popen (c_str (codes "md5sum " ++ path_of g i)) s ≡ (some [], t))
        × Same g s t

-- The own part is behind the other one.
pub lookup-second :
    (i i' : ℕ) (body body' : Bytes) (rest : Parts)
    → (i == i') ≡ false
    → lookup i ((i', body') ∷ (i, body) ∷ rest) ≡ some body
lookup-second i i' body body' rest other =
    ap (λ (b : Bool). if b then some body' else lookup i ((i, body) ∷ rest)) other
    ∙ ap (λ (b : Bool). if b then some body else lookup i rest) (==_self i)
