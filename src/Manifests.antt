-- ===== src/Manifests.antt =====
-- pkg/manifests/manifests.go: the texts of the five templates, and the structures from which the code
-- fills them.
pub mod Supplied
use cloudtty.Base.{ℕ, String, ◌<>◌, Option, [], ◌∷◌}
use cloudtty.Base.Dict.{Dict}
use cloudtty.Cluster.{Fields, text, pairs, optional_pairs, resources}

unfoldable pub pod_tmpl_v1 : String
pod_tmpl_v1 =
    "\napiVersion: v1\n" <> "kind: Pod\n" <> "metadata:\n" <> "  namespace: \"{{ .Namespace }}\"\n"
    <> "  name: \"{{ .Name }}\"\n" <> "spec:\n" <> "  containers:\n" <> "  - name: web-tty\n"
    <> "    image: \"{{ .Image }}\"\n" <> "    imagePullPolicy: IfNotPresent\n" <> "    command:\n"
    <> "    - /bin/bash\n" <> "    - -ec\n" <> "    - |\n"
    <> "      while :; do sleep 2073600; done\n" <> "    ports:\n" <> "    - containerPort: 7681\n"
    <> "      name: tty-ui\n" <> "      protocol: TCP\n" <> "    {{- if .Resources }}\n"
    <> "    resources:\n" <> "      {{- if .Resources.Requests }}\n" <> "      requests:\n"
    <> "        cpu: {{ .Resources.Requests.Cpu}}\n"
    <> "        memory: {{ .Resources.Requests.Memory}}\n" <> "      {{- end }}\n"
    <> "      {{- if .Resources.Limits }}\n" <> "      limits:\n"
    <> "        cpu: {{ .Resources.Limits.Cpu}}\n"
    <> "        memory: {{ .Resources.Limits.Memory}}\n" <> "      {{- end }}\n"
    <> "    {{- end }}\n" <> "  nodeSelector:\n" <> "  {{range $key, $value := .NodeSelector}}\n"
    <> "    {{ $key }}: \"{{ $value }}\"\n" <> "  {{end}}\n" <> "  restartPolicy: Never\n"

unfoldable pub service_tmpl_v1 : String
service_tmpl_v1 =
    "\napiVersion: v1\n" <> "kind: Service\n" <> "metadata:\n" <> "  name: \"{{ .Name }}\"\n"
    <> "  namespace: \"{{ .Namespace }}\"\n" <> "spec:\n" <> "  ports:\n" <> "  - name: ttyd\n"
    <> "    port: 7681\n" <> "    protocol: TCP\n" <> "    targetPort: 7681\n" <> "  selector:\n"
    <> "    worker.cloudtty.io/name: \"{{ .Worker }}\"\n" <> "  type: {{ .Type }}\n"

unfoldable pub ingress_tmpl_v1 : String
ingress_tmpl_v1 =
    "\napiVersion: networking.k8s.io/v1\n" <> "kind: Ingress\n" <> "metadata:\n"
    <> "  name: \"{{ .Name }}\"\n" <> "  namespace: \"{{ .Namespace }}\"\n" <> "  annotations:\n"
    <> "    nginx.ingress.kubernetes.io/rewrite-target: /\n"
    <> "    {{- range $key, $value := .Annotations }}\n" <> "    {{ $key }}: \"{{ $value }}\"\n"
    <> "    {{- end }}\n" <> "spec:\n" <> "  ingressClassName: \"{{ .IngressClassName }}\"\n"
    <> "  rules:\n" <> "  - http:\n" <> "      paths:\n" <> "      - path: \"{{ .Path }}\"\n"
    <> "        pathType: Prefix\n" <> "        backend:\n" <> "          service:\n"
    <> "            name: \"{{ .ServiceName }}\"\n" <> "            port:\n"
    <> "              number: 7681\n" <> "    {{- if .Host }}\n" <> "    host: \"{{ .Host }}\"\n"
    <> "    {{- end }}\n"

unfoldable pub virtual_service_v1_beta1 : String
virtual_service_v1_beta1 =
    "\napiVersion: networking.istio.io/v1beta1\n" <> "kind: VirtualService\n" <> "metadata:\n"
    <> "  name: \"{{ .Name }}\"\n" <> "  namespace: \"{{ .Namespace }}\"\n" <> "spec:\n"
    <> "  exportTo:\n" <> "  - \"{{ .ExportTo }}\"\n" <> "  gateways:\n"
    <> "  - \"{{ .Gateway }}\"\n" <> "  hosts:\n" <> "  - '*'\n" <> "  http:\n" <> "  - match:\n"
    <> "    - uri:\n" <> "        prefix: \"{{ .Path }}\"\n" <> "    rewrite:\n" <> "      uri: /\n"
    <> "    route:\n" <> "    - destination:\n"
    <> "        host: \"{{ .ServiceName }}.{{ .Namespace }}.svc.cluster.local\"\n"
    <> "        port:\n" <> "          number: 7681\n"

unfoldable pub kubeconfig_tmpl_v1 : String
kubeconfig_tmpl_v1 =
    "\napiVersion: v1\n" <> "clusters:\n" <> "- cluster:\n"
    <> "    certificate-authority-data: \"{{ .CAData }}\"\n" <> "    server: {{ .Server }}\n"
    <> "  name: kubernetes\n" <> "contexts:\n" <> "- context:\n" <> "    cluster: kubernetes\n"
    <> "    user: cloudtty-controller-manager\n"
    <> "  name: cloudtty-controller-manager@kubernetes\n"
    <> "current-context: cloudtty-controller-manager@kubernetes\n" <> "kind: Config\n" <> "users:\n"
    <> "- name: cloudtty-controller-manager\n" <> "  user: \n" <> "    token: \"{{ .Token }}\"\n"

abbrev pub pod_data : String → String → String → Dict → Option ℕ → Fields
pod_data name namespace image node_selector setting =
    ("Namespace", text namespace)
    ∷ ("Name", text name)
    ∷ ("Image", text image)
    ∷ ("Resources", resources setting)
    ∷ ("NodeSelector", pairs node_selector)
    ∷ []

abbrev pub service_data : String → String → String → String → Fields
service_data name namespace worker kind =
    ("Name", text name)
    ∷ ("Namespace", text namespace)
    ∷ ("Worker", text worker)
    ∷ ("Type", text kind)
    ∷ []

abbrev pub ingress_data : String → String → String → String → String → Option Dict → String → Fields
ingress_data name namespace class path service annotations host =
    ("Name", text name)
    ∷ ("Namespace", text namespace)
    ∷ ("IngressClassName", text class)
    ∷ ("ServiceName", text service)
    ∷ ("Path", text path)
    ∷ ("Annotations", optional_pairs annotations)
    ∷ ("Host", text host)
    ∷ []

abbrev pub virtual_service_data : String → String → String → String → String → String → Fields
virtual_service_data name namespace export_to gateway path service =
    ("Name", text name)
    ∷ ("Namespace", text namespace)
    ∷ ("ExportTo", text export_to)
    ∷ ("Gateway", text gateway)
    ∷ ("Path", text path)
    ∷ ("ServiceName", text service)
    ∷ []

abbrev pub kubeconfig_data : String → String → String → Fields
kubeconfig_data ca server token =
    ("Server", text server) ∷ ("CAData", text ca) ∷ ("Token", text token) ∷ []
