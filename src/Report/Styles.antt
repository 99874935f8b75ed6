-- ===== src/Report/Styles.antt =====
-- reportCSS of internal/report/styles.go.
use stackly.Base.{[], ◌∷◌, ◌++◌, Bytes, String}
use stackly.Report.{raw}

-- A line of the literal, with the line feed that ends it.
abbrev line : String → Bytes
line s = raw s ++ b'\n' ∷ []

unfoldable pub report_css : Bytes
report_css =
    b'\n' ∷ line "*{box-sizing:border-box;margin:0;padding:0}"
    ++ line "body{font-family:-apple-system,BlinkMacSystemFont,\"Segoe UI\",Roboto,sans-serif;"
    ++ line
        "  color:#0F172A;background:#FAFAF9;line-height:1.5;padding:32px;max-width:980px;margin:0 auto}"
    ++ line ".hdr{background:#0F172A;color:#fff;padding:32px;border-radius:12px;margin-bottom:24px}"
    ++ line
        ".hdr-row{display:flex;justify-content:space-between;align-items:baseline;margin-bottom:24px}"
    ++ line
        ".hdr-brand{font-weight:700;font-size:14px;letter-spacing:0.5px;text-transform:uppercase;color:#94A3B8}"
    ++ line ".hdr-meta{font-size:12px;color:#94A3B8;font-family:ui-monospace,monospace}"
    ++ line ".hdr-url{font-size:24px;font-weight:600;word-break:break-all;margin-bottom:24px}"
    ++ line ".hdr-stats{display:flex;gap:24px;flex-wrap:wrap}"
    ++ line
        ".hdr-stat-label{font-size:11px;text-transform:uppercase;letter-spacing:0.5px;color:#94A3B8;margin-bottom:4px}"
    ++ line ".hdr-stat-val{font-size:16px;font-weight:500}"
    ++ line ".mono{font-family:ui-monospace,monospace;font-size:13px}"
    ++ line
        ".sec{background:#fff;border:1px solid #E2E8F0;border-radius:12px;padding:24px;margin-bottom:16px}"
    ++ line ".sec h2{font-size:16px;font-weight:600;margin-bottom:16px;color:#0F172A}"
    ++ line ".cat-block{margin-bottom:16px}"
    ++ line ".cat-block:last-child{margin-bottom:0}"
    ++ line ".cat-title{font-size:12px;text-transform:uppercase;letter-spacing:0.5px;color:#64748B;"
    ++ line "  margin-bottom:8px;font-weight:600}"
    ++ line ".pills{display:flex;flex-wrap:wrap;gap:8px}"
    ++ line ".pill{display:inline-block;padding:6px 12px;background:#F1F5F9;border-radius:999px;"
    ++ line "  font-size:13px;color:#0F172A;font-weight:500}"
    ++ line ".pill-link{text-decoration:none;color:#0F172A;border:1px solid #CBD5E1}"
    ++ line ".pill-link:hover{background:#E2E8F0}"
    ++ line ".pill-conf{color:#64748B;font-weight:400;margin-left:4px}"
    ++ line ".grid-2{display:grid;grid-template-columns:repeat(2,1fr);gap:16px}"
    ++ line "@media(max-width:680px){.grid-2{grid-template-columns:1fr}}"
    ++ line ".card{background:#FAFAF9;border:1px solid #E2E8F0;border-radius:8px;padding:16px}"
    ++ line
        ".card-title{font-size:12px;text-transform:uppercase;letter-spacing:0.5px;color:#64748B;"
    ++ line "  font-weight:600;margin-bottom:12px}"
    ++ line ".kv{display:flex;justify-content:space-between;padding:6px 0;font-size:13px;"
    ++ line "  border-bottom:1px solid #F1F5F9;gap:12px}"
    ++ line ".kv:last-child{border-bottom:none}"
    ++ line ".k{color:#64748B;font-weight:500}"
    ++ line
        ".v{color:#0F172A;text-align:right;word-break:break-word;font-family:ui-monospace,monospace;font-size:12px}"
    ++ line ".v.warn{color:#D97706}"
    ++ line ".v.err{color:#DC2626}"
    ++ line ".empty{color:#94A3B8;font-size:13px;font-style:italic}"
    ++ line ".emails{display:flex;flex-wrap:wrap;gap:8px}"
    ++ line ".email-pill{display:inline-block;padding:6px 12px;background:#FEF3C7;color:#92400E;"
    ++ line
        "  border-radius:6px;font-size:13px;text-decoration:none;font-family:ui-monospace,monospace}"
    ++ line ".email-pill:hover{background:#FDE68A}"
    ++ line
        ".ftr{text-align:center;color:#94A3B8;font-size:12px;margin-top:32px;padding-top:16px;border-top:1px solid #E2E8F0}"
    ++ line ".ftr a{color:#64748B;text-decoration:none}"
    ++ line "@media print{"
    ++ line "  body{background:#fff;padding:0}"
    ++ line "  .hdr{background:#fff;color:#0F172A;border:1px solid #0F172A}"
    ++ line "  .hdr-brand,.hdr-meta,.hdr-stat-label{color:#64748B}"
    ++ line "  .sec{break-inside:avoid;border:1px solid #E2E8F0}"
    ++ line "  .pill-link{color:#0F172A}"
    ++ line "}"
